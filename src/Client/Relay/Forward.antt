-- ===== src/Client/Relay/Forward.antt =====
-- A node passes on what `fwd2` wraps.
use minedive.Common.{
  ℕ, ◌≡◌, refl, ap, ◌∙◌, true, [], ◌∷◌, Option, some, arith, Bytes, bytes, ◌is◌, done,
}
use minedive.Codec.{IsCodec}
use minedive.Wire.{EncL1Msg, fwd_members, read_fwd, members}
use minedive.Wire.RoundTrip.{IsFwd, read_fwd-print, read_min-print_fwd}
use minedive.Client.State.{Client, send_text}
use minedive.Client.Peers.{get_peer}
use minedive.Client.Circuits.{wrap}
use minedive.Client.Relay.{Env, handle_l1_msg, message_of, handle, handle_fwd2, fwd2}

message_of_fwd2 : message_of (bytes "fwd2") ≡ fwd2
unfolding message_of ◌is◌ bytes
message_of_fwd2 = refl

module _ (env : Env) (codec_laws : IsCodec env.codec) where
  wrap-IsFwd :
      (to b : Bytes) → env.codec.valid to ≡ true → IsFwd env.codec (wrap env.codec env.nacl to b)
  unfolding wrap bytes
  wrap-IsFwd to b h = record {
    from = codec_laws.valid_ascii [] tt;
    type = codec_laws.valid_ascii (bytes "fwd2") (omega arith);
    to = h;
    msg = codec_laws.valid_ascii [] tt;
    ori = codec_laws.valid-encode b;
  }

  module _ (cli : Client) (p : ℕ) (to b : Bytes) (tgt : ℕ) (h : env.codec.valid to ≡ true)
      (known : get_peer cli to ≡ some tgt) where
    abbrev wrapped : Bytes
    wrapped = env.codec.print (fwd_members (wrap env.codec env.nacl to b))

    read_back : read_fwd (members env.codec wrapped) ≡ wrap env.codec env.nacl to b
    read_back = read_fwd-print env.codec codec_laws _ (wrap-IsFwd to b h)

    known_to : get_peer cli (read_fwd (members env.codec wrapped)).to ≡ some tgt
    unfolding wrap
    known_to = ap (λ m. get_peer cli m.to) read_back ∙ known

    ori_is : (read_fwd (members env.codec wrapped)).ori ≡ env.codec.encode b
    unfolding wrap
    ori_is = ap (λ m. m.ori) read_back

    handle_fwd2-wrap :
        handle_fwd2 env cli p wrapped ≡ done (cli, send_text (cli.peer tgt).dc b ∷ [])
    unfolding handle_fwd2
    handle_fwd2-wrap =
        rw
          (
            known_to,
            handle_fwd2,
            ori_is,
            (codec_laws.decode-encode b).1,
            (codec_laws.decode-encode b).0,
          )
          refl

    -- A peer that is known gets the bytes that the message wraps, and nothing else happens.
    pub handle_l1_msg-wrap :
        (enc : Option EncL1Msg)
        → handle_l1_msg env cli p (env.codec.print (fwd_members (wrap env.codec env.nacl to b))) enc
          ≡ done (cli, send_text (cli.peer tgt).dc b ∷ [])
    unfolding handle_l1_msg handle wrap
    handle_l1_msg-wrap enc =
        rw
          (
            read_min-print_fwd env.codec codec_laws _ (wrap-IsFwd to b h),
            wrap_type,
            message_of_fwd2,
          )
          handle_fwd2-wrap
      where
        wrap_type : (wrap env.codec env.nacl to b).type ≡ bytes "fwd2"
        wrap_type = unfold wrap in refl
