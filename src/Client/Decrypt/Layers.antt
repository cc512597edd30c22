-- ===== src/Client/Decrypt/Layers.antt =====
-- A node opens the layer of a circuit that is sealed for it.
use minedive.Common.{
  ℕ, ◌≡◌, refl, sym, ap, ◌∙◌, true, false, [], some, arith, Bytes, bytes, ◌is◌, is_refl, length,
}
use minedive.Codec.{IsCodec, Nacl, IsNacl}
use minedive.Codec.Slices.{copy_full, slice_to-decode-encode}
use minedive.Wire.{EncL1Msg, enc_members}
use minedive.Wire.RoundTrip.{IsEnc, read_enc-print}
use minedive.Client.State.{Client, Node}
use minedive.Client.Circuits.{layer}
use minedive.Client.Relay.{Env, handle_l1_msg}
use minedive.Client.Decrypt.{add_route, dec_l1_msg, handle_enc, open_enc, pass_on}

-- What a circuit of public key `pub_k` and private key `priv_k` knows of the node of a client.
pub record Agrees (nacl : Nacl) (priv_k pub_k : Bytes) (node : Node) (cli : Client) : Type 0 where
  pub own_key : cli.pk ≡ nacl.public_of cli.priv_k
  pub known_key : node.okey ≡ cli.pk
  pub shared : node.tkey ≡ nacl.precompute node.okey priv_k
  pub circuit_key : pub_k ≡ nacl.public_of priv_k
  pub key_size : length pub_k ≡ 32

module _ (env : Env) (codec_laws : IsCodec env.codec) (nacl_laws : IsNacl env.nacl) where
  layer-IsEnc :
      (pub_k : Bytes) (node : Node) (msg : Bytes)
      → IsEnc env.codec (layer env.codec env.nacl pub_k node msg)
  unfolding layer bytes
  layer-IsEnc pub_k node msg = record {
    from = codec_laws.valid_ascii [] tt;
    type = codec_laws.valid_ascii (bytes "enc") (omega arith);
    key = codec_laws.valid-encode _;
    tpk = codec_laws.valid-encode _;
    nonce = codec_laws.valid-encode _;
    ct = codec_laws.valid-encode _;
  }

  module _ (p : ℕ) (cli : Client) (priv_k pub_k : Bytes) (node : Node)
      (agrees : Agrees env.nacl priv_k pub_k node cli) (size : length node.nonce ≡ 24)
      (msg : Bytes) where
    key_eq : node.tkey ≡ env.nacl.precompute (env.nacl.public_of priv_k) cli.priv_k
    key_eq =
        agrees.shared
        ∙ (ap (λ k. env.nacl.precompute k priv_k) (agrees.known_key ∙ agrees.own_key)
            ∙ nacl_laws.precompute_comm cli.priv_k priv_k)

    open_enc-layer :
        (after : Client)
        → after.priv_k ≡ cli.priv_k
        → open_enc env p after (layer env.codec env.nacl pub_k node msg)
          ≡ handle_l1_msg env after p msg (some (layer env.codec env.nacl pub_k node msg))
    unfolding open_enc pass_on layer
    open_enc-layer after same =
        rw
          (
            slice_to-decode-encode env.codec codec_laws 24 node.nonce size,
            slice_to-decode-encode env.codec codec_laws 32 pub_k agrees.key_size,
            copy_full 24 node.nonce size,
            copy_full 32 pub_k agrees.key_size,
            (codec_laws.decode-encode node.nonce).1,
            (codec_laws.decode-encode (env.nacl.seal msg node.nonce node.tkey)).1,
            (codec_laws.decode-encode (env.nacl.seal msg node.nonce node.tkey)).0,
          )
          (opened (
            ap (env.nacl.precompute pub_k) same
            ∙ (ap (λ k. env.nacl.precompute k cli.priv_k) agrees.circuit_key ∙ sym key_eq)))
      where
        enc : EncL1Msg
        enc = layer env.codec env.nacl pub_k node msg

        opened :
            env.nacl.precompute pub_k after.priv_k ≡ node.tkey
            → pass_on env p after (some enc) (
                env.nacl.unseal
                  (env.nacl.seal msg node.nonce node.tkey)
                  node.nonce
                  (env.nacl.precompute pub_k after.priv_k))
              ≡ handle_l1_msg env after p msg (some enc)
        opened e = rw (e, nacl_laws.unseal-seal msg node.nonce node.tkey) refl

    add_route_priv_k : (key : Bytes) → (add_route key p cli).priv_k ≡ cli.priv_k
    unfolding add_route
    add_route_priv_k key = ground arith

    -- A message that is sealed for a node reaches its `handleL1Msg` as it was, with the encrypted
    -- message beside it; and the node has a route for the key of the circuit.
    pub dec_l1_msg-layer :
        dec_l1_msg env p cli
          (env.codec.print (enc_members (layer env.codec env.nacl pub_k node msg)))
        ≡ handle_l1_msg env
            (add_route (env.codec.encode pub_k) p cli)
            p
            msg
            (some (layer env.codec env.nacl pub_k node msg))
    unfolding dec_l1_msg handle_enc
    dec_l1_msg-layer =
        rw
          (
            read_enc-print env.codec codec_laws _ (layer-IsEnc pub_k node msg),
            type_is_encrep,
            type_is_enc,
            tpk_good,
            tpk_is_pk,
          )
          (key_is (open_enc-layer (add_route _ p cli) (add_route_priv_k _)))
      where
        enc : EncL1Msg
        enc = layer env.codec env.nacl pub_k node msg

        type_is_encrep : (enc.type is bytes "encrep") ≡ false
        type_is_encrep = unfold layer ◌is◌ bytes in refl

        type_is_enc : (enc.type is bytes "enc") ≡ true
        type_is_enc = unfold layer in is_refl (bytes "enc")

        tpk_good : (env.codec.decode enc.tpk).good ≡ true
        tpk_good = unfold layer in (codec_laws.decode-encode node.okey).1

        tpk_is_pk : ((env.codec.decode enc.tpk).slice is cli.pk) ≡ true
        tpk_is_pk =
            unfold layer in
            rw ((codec_laws.decode-encode node.okey).0, agrees.known_key) (is_refl cli.pk)

        key_is :
            open_enc env p (add_route (env.codec.encode pub_k) p cli) enc
              ≡ handle_l1_msg env (add_route (env.codec.encode pub_k) p cli) p msg (some enc)
            → open_enc env p (add_route enc.key p cli) enc
              ≡ handle_l1_msg env (add_route (env.codec.encode pub_k) p cli) p msg (some enc)
        key_is e = unfold layer in e
