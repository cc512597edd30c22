-- ===== src/Client/L2Search/Answers.antt =====
-- Messages from a second-level peer that the node knows, sealed under the key that it has for it.
use minedive.Common.{
  panic, ◌<◌, ℕ, ◌≡◌, refl, ap, ◌∙◌, true, List, [], ◌∷◌, ◌++◌, some, Bytes, bytes, ◌is◌, length,
  done,
}
use minedive.Codec.{Codec, Nacl, IsCodec, IsNacl}
use minedive.Wire.{FwdMsg, fwd_members, L2Msg, l2_members}
use minedive.Wire.RoundTrip.{IsFwd, read_fwd-print}
use minedive.Wire.Searches.{IsL2, read_l2-print}
use minedive.Client.State.{Client, Effect, search, respond}
use minedive.Client.L2.{get_l2_peer_if_exists}
use minedive.Client.L2.Decoding.{
  SameKeys, get_l2_peer-known, get_l2_peer-Returns, decode_l2_msg-seal, decode_l2_msg_short,
}
use minedive.Client.L2Search.{attempts, deliver, deliver_opt, handle_l2_msg}

module _ (codec : Codec) (nacl : Nacl) (codec_laws : IsCodec codec) (nacl_laws : IsNacl nacl) where
  attempts-seal :
      (k nonce b : Bytes) (ks : List Bytes)
      → length nonce ≡ 24
      → attempts codec nacl (k ∷ ks) (codec.encode (nonce ++ nacl.seal b nonce k)) ≡ done (some b)
  unfolding attempts
  attempts-seal k nonce b ks h =
      rw (decode_l2_msg-seal codec nacl codec_laws nacl_laws k nonce b h, attempts) refl

  -- The message is handled as it was sealed.
  handle_l2_msg-seal :
      (c : Client) (gw l2 : ℕ) (m : FwdMsg) (k2 k3 nonce b : Bytes)
      → IsFwd codec m
      → get_l2_peer_if_exists c m.ori ≡ some l2
      → length nonce ≡ 24
      → m.msg ≡ codec.encode (nonce ++ nacl.seal b nonce (c.l2 l2).k)
      → (c' : Client) × SameKeys c c' l2
        × (handle_l2_msg codec nacl c gw (codec.print (fwd_members m)) k2 k3
            ≡ done (c', deliver codec nacl c' l2 b))
  unfolding handle_l2_msg deliver_opt
  handle_l2_msg-seal c gw l2 m k2 k3 nonce b v known size under =
      let (c', met, same) = get_l2_peer-known c m.ori (some gw) true l2 known in
      let opened : attempts codec nacl ((c'.l2 l2).k ∷ k2 ∷ k3 ∷ []) m.msg ≡ done (some b) =
        ap (λ (s : Bytes). attempts codec nacl ((c'.l2 l2).k ∷ k2 ∷ k3 ∷ []) s) under
        ∙ (ap
              (λ (k : Bytes).
                attempts codec nacl (k ∷ k2 ∷ k3 ∷ [])
                  (codec.encode (nonce ++ nacl.seal b nonce (c.l2 l2).k)))
              same.k
            ∙ attempts-seal (c.l2 l2).k nonce b (k2 ∷ k3 ∷ []) size) in
      (c', same, rw (read_fwd-print codec codec_laws m v, handle_l2_msg, met, opened) refl)

  -- An answer goes to `Responder`, a search to `Searcher` under the name of the peer.
  deliver-resp :
      (c : Client) (l2 : ℕ) (m : L2Msg)
      → IsL2 codec m
      → m.type ≡ bytes "resp"
      → c.has_responder ≡ true
      → deliver codec nacl c l2 (codec.print (l2_members m))
        ≡ respond (codec.print (l2_members m)) ∷ []
  unfolding deliver bytes ◌is◌
  deliver-resp c l2 m v type responds =
      rw (read_l2-print codec codec_laws m v, deliver, type, responds) refl

  deliver-search :
      (c : Client) (l2 : ℕ) (m : L2Msg)
      → IsL2 codec m
      → m.type ≡ bytes "search"
      → c.has_searcher ≡ true
      → deliver codec nacl c l2 (codec.print (l2_members m))
        ≡ search (c.l2 l2).name m.query m.lang [] [] ∷ []
  unfolding deliver bytes ◌is◌
  deliver-search c l2 m v type searches =
      rw (read_l2-print codec codec_laws m v, deliver, type, searches) refl

  module _ (c : Client) (gw l2 : ℕ) (m : FwdMsg) (k2 k3 nonce : Bytes) (b : L2Msg)
      (v : IsFwd codec m) (known : get_l2_peer_if_exists c m.ori ≡ some l2)
      (size : length nonce ≡ 24) (valid : IsL2 codec b)
      (under : m.msg
        ≡ codec.encode (nonce ++ nacl.seal (codec.print (l2_members b)) nonce (c.l2 l2).k)) where
    pub handle_l2_msg-resp :
        b.type ≡ bytes "resp"
        → c.has_responder ≡ true
        → (c' : Client) × (handle_l2_msg codec nacl c gw (codec.print (fwd_members m)) k2 k3
            ≡ done (c', respond (codec.print (l2_members b)) ∷ []))
    handle_l2_msg-resp type responds =
        let (c', same, e) = handle_l2_msg-seal c gw l2 m k2 k3 nonce _ v known size under in
        (
          c',
          e
              ∙ ap (λ (out : List Effect). done (c', out))
                  (deliver-resp c' l2 b valid type (same.responds ∙ responds)),
        )

    pub handle_l2_msg-search :
        b.type ≡ bytes "search"
        → c.has_searcher ≡ true
        → (c' : Client) × (handle_l2_msg codec nacl c gw (codec.print (fwd_members m)) k2 k3
            ≡ done (c', search (c.l2 l2).name b.query b.lang [] [] ∷ []))
    handle_l2_msg-search type searches =
        let (c', same, e) = handle_l2_msg-seal c gw l2 m k2 k3 nonce _ v known size under in
        (
          c',
          e
              ∙ ap (λ (out : List Effect). done (c', out))
                  (deliver-search c' l2 b valid type (same.searches ∙ searches)
                    ∙ ap (λ (n : Bytes). search n b.query b.lang [] [] ∷ []) same.name),
        )

-- A message that has less bytes than a nonce stops the node, whether it knows the peer or not.
pub handle_l2_msg_short :
    (codec : Codec) (nacl : Nacl)
    → IsCodec codec
    → (c : Client) (gw : ℕ) (m : FwdMsg) (k2 k3 : Bytes) → IsFwd codec m
    → (codec.decode m.msg).good ≡ true
    → length (codec.decode m.msg).slice < 24
    → handle_l2_msg codec nacl c gw (codec.print (fwd_members m)) k2 k3 ≡ panic
unfolding handle_l2_msg attempts
handle_l2_msg_short codec nacl codec_laws c gw m k2 k3 v good short =
    let (c', l2, out, met) = get_l2_peer-Returns c m.ori gw in
    rw
      (
        read_fwd-print codec codec_laws m v,
        handle_l2_msg,
        met,
        decode_l2_msg_short codec nacl (c'.l2 l2).k m.msg good short,
        attempts,
      )
      refl
