-- ===== src/Client/Decrypt/Direct.antt =====
-- Messages that do not come through a circuit.
use minedive.Common.{
  true, ◌<◌, length, ◌≡◌, refl, ap, ◌∙◌, ℕ, false, [], ◌∷◌, Option, none, Bytes, bytes, ◌is◌, Dict,
  panic,
}
use minedive.Codec.{Value, text, IsCodec}
use minedive.Wire.{FwdMsg, fwd_members, read_enc, members_of}
use minedive.Wire.RoundTrip.{IsFwd, read_enc-print_fwd}
use minedive.Client.State.{Client}
use minedive.Client.Relay.{Env, handle_l1_msg}
use minedive.Client.Relay.Gateway.{handle_l1_msg-own}
use minedive.Client.L2Search.Answers.{handle_l2_msg_short}
use minedive.Client.Relay.Tests.{ReadsTests, test_text, handle_l1_msg_test_panics}
use minedive.Client.Decrypt.{dec_l1_msg}

read_enc_type : (t : Bytes) → (read_enc ((bytes "type", text t) ∷ [])).type ≡ t
unfolding read_enc ◌is◌ bytes
read_enc_type t = refl

-- Any peer of a node makes it panic with the text of a test, sent on the data channel as it is:
-- `handleL1Msg` then has no message of a circuit to reply to.
pub direct_test_panics :
    (env : Env) (p : ℕ) (cli : Client)
    → ReadsTests env.codec
    → dec_l1_msg env p cli test_text ≡ panic
unfolding dec_l1_msg
direct_test_panics env p cli reads =
    let read : (read_enc (members_of (env.codec.parse test_text))).type ≡ bytes "test" =
      ap (λ (d : Option (Dict Value)). (read_enc (members_of d)).type) reads.parse_test
      ∙ read_enc_type (bytes "test") in
    let not_rep : (bytes "test" is bytes "encrep") ≡ false = unfold bytes in unfold ◌is◌ in refl in
    let not_enc : (bytes "test" is bytes "enc") ≡ false = unfold bytes in unfold ◌is◌ in refl in
    rw (read, not_rep, not_enc) (handle_l1_msg_test_panics env reads cli p)

-- A "fwd" goes to `handleL1Msg` as it is.
pub dec_l1_msg-fwd :
    (env : Env)
    → IsCodec env.codec
    → (p : ℕ) (cli : Client) (m : FwdMsg) → IsFwd env.codec m
    → m.type ≡ bytes "fwd"
    → dec_l1_msg env p cli (env.codec.print (fwd_members m))
      ≡ handle_l1_msg env cli p (env.codec.print (fwd_members m)) none
unfolding dec_l1_msg
dec_l1_msg-fwd env codec_laws p cli m v type =
    let read = read_enc-print_fwd env.codec codec_laws m v ∙ type in
    let not_rep : (bytes "fwd" is bytes "encrep") ≡ false = unfold bytes in unfold ◌is◌ in refl in
    let not_enc : (bytes "fwd" is bytes "enc") ≡ false = unfold bytes in unfold ◌is◌ in refl in
    rw (read, not_rep, not_enc) refl

-- A short message stops a node. A "fwd" to a node, from any of its peers, whose message decodes to
-- less bytes than a nonce makes the node panic, where its fields are UTF-8 and JSON obeys its law:
-- `DecodeL2Msg` slices what it has decoded before it looks at its length. Where the first slice
-- finds 24 bytes, in the capacity, the second, which starts there, is past the end.
pub short_fwd_panics :
    (env : Env)
    → IsCodec env.codec
    → (p : ℕ) (cli : Client) (m : FwdMsg) → IsFwd env.codec m
    → m.type ≡ bytes "fwd"
    → m.to ≡ cli.tid
    → (env.codec.decode m.msg).good ≡ true
    → length (env.codec.decode m.msg).slice < 24
    → dec_l1_msg env p cli (env.codec.print (fwd_members m)) ≡ panic
short_fwd_panics env codec_laws p cli m v type to good short =
    dec_l1_msg-fwd env codec_laws p cli m v type
    ∙ (handle_l1_msg-own env codec_laws cli p m v type to
        ∙ handle_l2_msg_short env.codec env.nacl codec_laws cli p m env.k2 env.k3 v good short)
