-- ===== src/Client/Replies.antt =====
-- A reply through a circuit: `ReplyCircuit` of circuit.go at the exit, and "encrep" of `DecL1Msg`
-- at the bridge, the guard and the origin.
use minedive.Common.{
  ℕ, ◌+◌, ◌^◌, ◌≡◌, refl, sym, ap, ◌∙◌, ◌≢◌, inl, inr, true, List, [], ◌∷◌, none, some, arith,
  Bytes, bytes, lookup, length, done,
}
use minedive.Codec.{Codec, Nacl, IsCodec, IsNacl}
use minedive.Codec.Slices.{copy_full, slice_to_full, slice_to-decode-encode}
use minedive.Nonce.{inc_nonce, use_nonce}
use minedive.Nonce.Counter.{value, inc_nonce-Counts}
use minedive.Wire.{EncL1Msg, zero_enc, enc_members}
use minedive.Wire.RoundTrip.{IsEnc}
use minedive.Client.State.{Client, Node, Circuit, send_text}
use minedive.Client.Circuits.{sealed, layer, seal_for, reply_msg, reply_circuit}
use minedive.Client.Circuits.Sending.{IsNonce, nonces, with_nonce}
use minedive.Client.Relay.{Env, handle_l1_msg}
use minedive.Client.Decrypt.{dec_l1_msg}
use minedive.Client.Decrypt.Returns.{dec_l1_msg-relay, dec_l1_msg-reply}
use minedive.Client.Decrypt.Layers.{Agrees}

-- The nonce after that of a node.
abbrev pub next_nonce : Node → Bytes
next_nonce node = (inc_nonce node.nonce (length node.nonce)).0

-- A reply to the circuit, under a nonce and the key that the circuit shares with its exit.
abbrev pub reply_enc : Codec → Nacl → Circuit → Client → Bytes → Bytes → EncL1Msg
reply_enc codec nacl c exit n msg = record zero_enc {
  type = bytes "encrep";
  key = codec.encode exit.pk;
  tpk = codec.encode c.pub_k;
  nonce = codec.encode n;
  ct = codec.encode (nacl.seal msg n c.exit.tkey);
}

abbrev pub reply_text : Codec → Nacl → Circuit → Client → Bytes → Bytes → Bytes
reply_text codec nacl c exit n msg = codec.print (enc_members (reply_enc codec nacl c exit n msg))

pub next_nonce-IsNonce : (node : Node) → IsNonce node.nonce → IsNonce (next_nonce node)
next_nonce-IsNonce node h =
    let (r, e, (size, all, counted)) =
      inc_nonce-Counts [] node.nonce (length node.nonce) h.all_bytes (inl refl) in
    let at : next_nonce node ≡ r.0 = ap (λ (x : Bytes × _). x.0) e in
    rw at (record { size = size ∙ h.size; all_bytes = all })

next_nonce-size : (node : Node) → IsNonce node.nonce → length (next_nonce node) ≡ 24
next_nonce-size node h = (next_nonce-IsNonce node h).size

-- The four nodes of a circuit with the routes that a message through it has left: each of the three
-- knows the peer that the messages of the circuit came from, and the origin holds the circuit as
-- its first.
pub record BackPath (env : Env) (c : Circuit) : Type 0 where
  pub exit : Client
  pub bridge : Client
  pub guard : Client
  pub origin : Client
  pub to_bridge : ℕ
  pub to_guard : ℕ
  pub to_origin : ℕ
  pub own : ℕ
  pub others : List ℕ
  pub agrees : Agrees env.nacl c.priv_k c.pub_k c.exit exit
  pub exit_route : lookup (env.codec.encode c.pub_k) exit.routes ≡ some to_bridge
  pub bridge_route : lookup (env.codec.encode c.pub_k) bridge.routes ≡ some to_guard
  pub guard_route : lookup (env.codec.encode c.pub_k) guard.routes ≡ some to_origin
  pub no_route : lookup (env.codec.encode c.pub_k) origin.routes ≡ none
  pub first : origin.circuits ≡ own ∷ others
  pub id : (origin.circuit own).circuit_id ≡ env.codec.encode c.pub_k
  pub key : (origin.circuit own).exit.tkey ≡ c.exit.tkey

module _ (env : Env) (codec_laws : IsCodec env.codec) (nacl_laws : IsNacl env.nacl) where
  shared_key :
      (c : Circuit) (exit : Client)
      → Agrees env.nacl c.priv_k c.pub_k c.exit exit
      → env.nacl.precompute c.pub_k exit.priv_k ≡ c.exit.tkey
  shared_key c exit a =
      ap (λ (k : Bytes). env.nacl.precompute k exit.priv_k) a.circuit_key
      ∙ sym (
          a.shared
          ∙ (ap (λ (k : Bytes). env.nacl.precompute k c.priv_k) (a.known_key ∙ a.own_key)
              ∙ nacl_laws.precompute_comm exit.priv_k c.priv_k))

  reply_circuit-enc :
      (c : Circuit) (exit : Client) (p : ℕ) (msg : Bytes)
      → Agrees env.nacl c.priv_k c.pub_k c.exit exit
      → IsNonce c.exit.nonce
      → lookup (env.codec.encode c.pub_k) exit.routes ≡ some p
      → reply_circuit env.codec env.nacl exit msg
          (env.codec.encode c.pub_k)
          (env.codec.encode c.exit.nonce)
        ≡ done (
            send_text
              (exit.peer p).dc
              (reply_text env.codec env.nacl c exit (next_nonce c.exit) msg)
            ∷ [])
  unfolding reply_circuit reply_msg
  reply_circuit-enc c exit p msg a h route =
      let n = next_nonce c.exit in
      let d = env.codec.decode (env.codec.encode c.exit.nonce) in
      let (slice, good) = codec_laws.decode-encode c.exit.nonce in
      let size = next_nonce-size c.exit h in
      let moved = ap (λ (s : Bytes). (inc_nonce s (length s)).0) slice in
      rw
        (
          route,
          reply_circuit,
          slice_to_full 24 (record d { slice = (inc_nonce d.slice (length d.slice)).0 }) n moved
              size,
          good,
          slice_to-decode-encode env.codec codec_laws 32 c.pub_k a.key_size,
          (codec_laws.decode-encode c.pub_k).1,
          copy_full 24 n size,
          copy_full 32 c.pub_k a.key_size,
          shared_key c exit a,
        )
        refl

  reply_enc-IsEnc :
      (c : Circuit) (exit : Client) (n msg : Bytes)
      → IsEnc env.codec (reply_enc env.codec env.nacl c exit n msg)
  unfolding bytes
  reply_enc-IsEnc c exit n msg = record {
    from = codec_laws.valid_ascii [] tt;
    type = codec_laws.valid_ascii (bytes "encrep") (omega arith);
    key = codec_laws.valid-encode _;
    tpk = codec_laws.valid-encode _;
    nonce = codec_laws.valid-encode _;
    ct = codec_laws.valid-encode _;
  }

  -- A reply comes back to the node that built the circuit. To the last message of a circuit
  -- `ReplyCircuit` writes one text, to the peer of the exit's route; the bridge and the guard pass
  -- it on as it is, along their routes; and the origin opens it with the key that it shares with
  -- the exit, and calls `handleL1Msg` with the reply as it was. The peers that the three hear from
  -- may be any. The nodes have the routes and the circuit of `BackPath`; base64, JSON and nacl obey
  -- their laws.
  pub reply_circuit-Returns :
      (c : Circuit) (path : BackPath env c) (msg : Bytes) (p q r : ℕ)
      → IsNonce c.exit.nonce
      → (b : Bytes) × (reply_circuit env.codec env.nacl path.exit msg
            (env.codec.encode c.pub_k)
            (env.codec.encode c.exit.nonce)
          ≡ done (send_text (path.exit.peer path.to_bridge).dc b ∷ []))
        × (dec_l1_msg env p path.bridge b
            ≡ done (path.bridge, send_text (path.bridge.peer path.to_guard).dc b ∷ []))
        × (dec_l1_msg env q path.guard b
            ≡ done (path.guard, send_text (path.guard.peer path.to_origin).dc b ∷ []))
        × (dec_l1_msg env r path.origin b ≡ handle_l1_msg env path.origin r msg none)
  reply_circuit-Returns c path msg p q r h =
      let n = next_nonce c.exit in
      let m = reply_enc env.codec env.nacl c path.exit n msg in
      let v = reply_enc-IsEnc c path.exit n msg in
      let sealed_for_origin =
        ap (λ (k : Bytes). env.codec.encode (env.nacl.seal msg n k)) (sym path.key) in
      (
        env.codec.print (enc_members m),
        reply_circuit-enc c path.exit path.to_bridge msg path.agrees h path.exit_route,
        dec_l1_msg-relay env codec_laws nacl_laws p path.bridge m v refl path.to_guard
            path.bridge_route,
        dec_l1_msg-relay env codec_laws nacl_laws q path.guard m v refl path.to_origin
            path.guard_route,
        dec_l1_msg-reply env codec_laws nacl_laws r path.origin m v refl path.own path.others n msg
            path.no_route path.first path.id refl (next_nonce-size c.exit h) sealed_for_origin,
      )

  -- A nonce comes twice under one key. The reply to the last message of a circuit and the next
  -- message of the circuit to its exit, whatever their texts, are sealed under the same nonce and
  -- the same key, the one that the circuit shares with the exit, as long as the nonce is not the
  -- last one.
  pub reply_nonce_reused :
      (c : Circuit) (exit : Client) (p : ℕ) (reply msg : Bytes)
      → Agrees env.nacl c.priv_k c.pub_k c.exit exit
      → IsNonce c.exit.nonce
      → value c.exit.nonce + 1 ≢ nonces
      → lookup (env.codec.encode c.pub_k) exit.routes ≡ some p
      → (n : Bytes) × (o o' : EncL1Msg) × (reply_circuit env.codec env.nacl exit reply
            (env.codec.encode c.pub_k)
            (env.codec.encode c.exit.nonce)
          ≡ done (send_text (exit.peer p).dc (env.codec.print (enc_members o)) ∷ []))
        × (seal_for env.codec env.nacl c.pub_k c.exit msg
            ≡ sealed (with_nonce c.exit n) (env.codec.print (enc_members o')))
        × (o.ct ≡ env.codec.encode (env.nacl.seal reply n c.exit.tkey))
        × (o'.ct ≡ env.codec.encode (env.nacl.seal msg n c.exit.tkey))
  unfolding seal_for use_nonce layer
  reply_nonce_reused c exit p reply msg a h more route =
      let (r, e, (size, all, counted)) =
        inc_nonce-Counts [] c.exit.nonce (length c.exit.nonce) h.all_bytes (inl refl) in
      let n = next_nonce c.exit in
      let good : (inc_nonce c.exit.nonce (length c.exit.nonce)).1 ≡ true = elim counted [
        | inl (g, up) ↦ ap (λ (x : Bytes × _). x.1) e ∙ g
        | inr (g, last, zeros) ↦ absurd (more (last ∙ ap (λ (k : ℕ). 256 ^ k) h.size))
      ] in
      (
        n,
        reply_enc env.codec env.nacl c exit n reply,
        layer env.codec env.nacl c.pub_k (with_nonce c.exit n) msg,
        reply_circuit-enc c exit p reply a h route,
        rw (good, seal_for, use_nonce) refl,
        refl,
        refl,
      )
