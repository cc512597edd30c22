-- ===== src/Client/Relay/Tests.antt =====
-- The test of a circuit: the messages "test" and "test2".
use minedive.Common.{
  ℕ, ◌≡◌, refl, ap, ◌∙◌, Option, none, some, List, [], ◌∷◌, Bytes, bytes, ◌is◌, Dict, done, panic,
}
use minedive.Codec.{Codec, Value, text}
use minedive.Wire.{EncL1Msg, read_min, members_of}
use minedive.Client.State.{Client, Effect, put_circuit}
use minedive.Client.Circuits.{reply_circuit}
use minedive.Client.Relay.{
  Env, test, test2, message_of, handle_test, handle_test2, handle, handle_l1_msg,
}

-- The two texts that the code writes by hand.
abbrev pub test_text : Bytes
test_text = bytes "{\"type\":\"test\"}"

abbrev pub test2_text : Bytes
test2_text = bytes "{\"type\":\"test2\"}"

-- `json.Unmarshal` reads them as objects with one member.
pub record ReadsTests (codec : Codec) : Type 0 where
  pub parse_test : codec.parse test_text ≡ some ((bytes "type", text (bytes "test")) ∷ [])
  pub parse_test2 : codec.parse test2_text ≡ some ((bytes "type", text (bytes "test2")) ∷ [])

pub read_min_type : (t : Bytes) → (read_min ((bytes "type", text t) ∷ [])).type ≡ t
unfolding read_min ◌is◌ bytes
read_min_type t = refl

message_of_test : message_of (bytes "test") ≡ test
unfolding message_of ◌is◌ bytes
message_of_test = refl

message_of_test2 : message_of (bytes "test2") ≡ test2
unfolding message_of ◌is◌ bytes
message_of_test2 = refl

module _ (env : Env) (reads : ReadsTests env.codec) (c : Client) (p : ℕ) where
  handle_l1_msg_typed :
      (msg t : Bytes) (e : Option EncL1Msg)
      → env.codec.parse msg ≡ some ((bytes "type", text t) ∷ [])
      → handle_l1_msg env c p msg e ≡ handle env c p msg e (message_of t)
  unfolding handle_l1_msg
  handle_l1_msg_typed msg t e parsed =
      ap
        (λ (d : Option (Dict Value)).
          handle env c p msg e (message_of (read_min (members_of d)).type))
        parsed
      ∙ ap (λ (s : Bytes). handle env c p msg e (message_of s)) (read_min_type t)

  -- A test that came through a circuit is answered through it.
  pub handle_l1_msg_test :
      (e : EncL1Msg) (out : List Effect)
      → reply_circuit env.codec env.nacl c test2_text e.key e.nonce ≡ done out
      → handle_l1_msg env c p test_text (some e) ≡ done (c, out)
  unfolding handle handle_test
  handle_l1_msg_test e out replied =
      handle_l1_msg_typed test_text (bytes "test") (some e) reads.parse_test
      ∙ (ap (handle env c p test_text (some e)) message_of_test
          ∙ rw (replied, handle, handle_test) refl)

  -- A test that did not come through a circuit.
  pub handle_l1_msg_test_panics : handle_l1_msg env c p test_text none ≡ panic
  unfolding handle handle_test
  handle_l1_msg_test_panics =
      handle_l1_msg_typed test_text (bytes "test") none reads.parse_test
      ∙ ap (handle env c p test_text none) message_of_test

  -- The answer to a test.
  pub handle_l1_msg_test2 :
      (z : ℕ) (zs : List ℕ) (e : Option EncL1Msg)
      → c.circuits ≡ z ∷ zs
      → handle_l1_msg env c p test2_text e
        ≡ done (put_circuit z (record (c.circuit z) { state = bytes "OK" }) c, [])
  unfolding handle handle_test2
  handle_l1_msg_test2 z zs e first =
      handle_l1_msg_typed test2_text (bytes "test2") e reads.parse_test2
      ∙ (ap (handle env c p test2_text e) message_of_test2
          ∙ ap (handle_test2 env c p test2_text) first)
