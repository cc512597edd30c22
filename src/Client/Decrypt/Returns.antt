-- ===== src/Client/Decrypt/Returns.antt =====
-- What a node does with a reply: it passes it on along the route of its circuit, or opens it.
use minedive.Common.{
  ℕ, ◌≡◌, refl, ap, ◌∙◌, List, [], ◌∷◌, none, some, Bytes, bytes, is_iff, lookup, length, done,
}
use minedive.Codec.{IsCodec, IsNacl}
use minedive.Codec.Slices.{copy_full, slice_to-decode-encode}
use minedive.Wire.{EncL1Msg, enc_members}
use minedive.Wire.RoundTrip.{IsEnc, read_enc-print}
use minedive.Client.State.{Client, send_text}
use minedive.Client.Relay.{Env, handle_l1_msg}
use minedive.Client.Decrypt.{find_circuit, pass_on, open_reply, handle_encrep, dec_l1_msg}

module _ (env : Env) (codec_laws : IsCodec env.codec) (nacl_laws : IsNacl env.nacl) (p : ℕ)
    (cli : Client) (m : EncL1Msg) (v : IsEnc env.codec m) (ht : m.type ≡ bytes "encrep") where
  dec_l1_msg-encrep :
      dec_l1_msg env p cli (env.codec.print (enc_members m))
      ≡ handle_encrep env p cli m (env.codec.print (enc_members m))
  unfolding dec_l1_msg
  dec_l1_msg-encrep =
      rw (read_enc-print env.codec codec_laws m v, (is_iff m.type (bytes "encrep")).1 ht) refl

  -- A node with a route for the circuit passes the text on as it is.
  pub dec_l1_msg-relay :
      (tgt : ℕ)
      → lookup m.tpk cli.routes ≡ some tgt
      → dec_l1_msg env p cli (env.codec.print (enc_members m))
        ≡ done (cli, send_text (cli.peer tgt).dc (env.codec.print (enc_members m)) ∷ [])
  unfolding handle_encrep
  dec_l1_msg-relay tgt known = dec_l1_msg-encrep ∙ rw (known, handle_encrep) refl

  -- The node that built the circuit opens the reply, and handles what is in it.
  pub dec_l1_msg-reply :
      (z : ℕ) (zs : List ℕ) (n msg : Bytes)
      → lookup m.tpk cli.routes ≡ none
      → cli.circuits ≡ z ∷ zs
      → (cli.circuit z).circuit_id ≡ m.tpk
      → m.nonce ≡ env.codec.encode n
      → length n ≡ 24
      → m.ct ≡ env.codec.encode (env.nacl.seal msg n (cli.circuit z).exit.tkey)
      → dec_l1_msg env p cli (env.codec.print (enc_members m)) ≡ handle_l1_msg env cli p msg none
  unfolding handle_encrep find_circuit open_reply pass_on
  dec_l1_msg-reply z zs n msg unknown first id nonce size ct =
      let box = env.nacl.seal msg n (cli.circuit z).exit.tkey in
      let found : find_circuit cli m.tpk (z ∷ zs) ≡ some z =
        rw ((is_iff (cli.circuit z).circuit_id m.tpk).1 id) refl in
      let found' = ap (find_circuit cli m.tpk) first ∙ found in
      dec_l1_msg-encrep
      ∙ rw
          (
            unknown,
            handle_encrep,
            found',
            open_reply,
            nonce,
            ct,
            slice_to-decode-encode env.codec codec_laws 24 n size,
            copy_full 24 n size,
            (codec_laws.decode-encode n).1,
            (codec_laws.decode-encode box).1,
            (codec_laws.decode-encode box).0,
            nacl_laws.unseal-seal msg n (cli.circuit z).exit.tkey,
          )
          refl
