-- ===== src/Client/L2/Decoding.antt =====
-- A second-level peer that a node knows, and what was sealed for it.
use minedive.Common.{
  ℕ, ◌+◌, ◌<◌, arith, bytes, panic, ◌≡◌, refl, Bool, true, Bool-cases, ltb, List, [], ◌∷◌, ◌++◌,
  Option, some, inl, inr, Bytes, length, done, Option-cases, ==_refl,
}
use minedive.Codec.{Codec, Nacl, IsCodec, IsNacl, slice_to, slice_from}
use minedive.Codec.Slices.{copy_full, slice_to_prefix, slice_from_prefix}
use minedive.Client.State.{Client, Effect, send_cell, put_l2}
use minedive.Protocol.{Cell, zero_cell}
use minedive.Client.L2.{
  get_l2_peer_if_exists, get_l2_peer, fill_gateway, decode_l2_msg, ask_key, add_l2_peer,
  new_l2_peer,
}

-- The node after `GetL2Peer` on a name that it knows: the same but for the gateway of that peer.
pub record SameKeys (c c' : Client) (l2 : ℕ) : Type 0 where
  pub k : (c'.l2 l2).k ≡ (c.l2 l2).k
  pub name : (c'.l2 l2).name ≡ (c.l2 l2).name
  pub searches : c'.has_searcher ≡ c.has_searcher
  pub responds : c'.has_responder ≡ c.has_responder

fill_gateway-SameKeys : (l2 : ℕ) (g : Option ℕ) (c : Client) → SameKeys c (fill_gateway l2 g c) l2
unfolding fill_gateway put_l2
fill_gateway-SameKeys l2 g c = elim (Option-cases (c.l2 l2).gw) [
  | inr (old, there) ↦
      rw (there, fill_gateway) (record { k = refl; name = refl; searches = refl; responds = refl })
  | inl unset ↦
      rw (unset, fill_gateway)
        (record {
          k = rw (==_refl l2) refl;
          name = rw (==_refl l2) refl;
          searches = refl;
          responds = refl;
        })
]

pub get_l2_peer-known :
    (c : Client) (name : Bytes) (g : Option ℕ) (ask : Bool) (l2 : ℕ)
    → get_l2_peer_if_exists c name ≡ some l2
    → (c' : Client) × (get_l2_peer c name g ask ≡ done (c', l2, [])) × SameKeys c c' l2
unfolding get_l2_peer
get_l2_peer-known c name g ask l2 known =
    (fill_gateway l2 g c, rw (known, get_l2_peer) refl, fill_gateway-SameKeys l2 g c)

-- With a gateway, `GetL2Peer` returns, also for a name that it does not know.
pub get_l2_peer-Returns :
    (c : Client) (name : Bytes) (g : ℕ)
    → (c' : Client) × (l2 : ℕ) × (out : List Effect) × (get_l2_peer c name (some g) true
        ≡ done (c', l2, out))
unfolding get_l2_peer ask_key
get_l2_peer-Returns c name g = elim (Option-cases (get_l2_peer_if_exists c name)) [
  | inr (l2, known) ↦
      let (c', met, same) = get_l2_peer-known c name (some g) true l2 known in (c', l2, [], met)
  | inl unknown ↦
      let start = record c { free = c.free + 1 } in
      let asked : Cell = record zero_cell {
        type = bytes "getkey";
        d0 = name;
        d1 = (c.peer g).name;
      } in
      (
        add_l2_peer c.free (put_l2 c.free (new_l2_peer name (some g)) start),
        c.free,
        send_cell asked ∷ [],
        rw (unknown, get_l2_peer) refl,
      )
]

-- A message of less bytes than a nonce: if the capacity has the nonce, nothing starts behind it.
pub decode_l2_msg_short :
    (codec : Codec) (nacl : Nacl) (k emsg : Bytes)
    → (codec.decode emsg).good ≡ true
    → length (codec.decode emsg).slice < 24
    → decode_l2_msg codec nacl k emsg ≡ panic
unfolding decode_l2_msg slice_from slice_to
decode_l2_msg_short codec nacl k emsg good short =
    let d = codec.decode emsg in
    let short_test : ltb (length d.slice) 24 ≡ true = ground (arith, short) in
    elim (Bool-cases (ltb (length (d.slice ++ d.spare)) 24)) [
      | inl past ↦ rw (good, past) refl
      | inr within ↦ rw (good, within, short_test) refl
    ]

-- What `SendL2` seals comes back from `DecodeL2Msg` under the same key.
pub decode_l2_msg-seal :
    (codec : Codec) (nacl : Nacl)
    → IsCodec codec
    → IsNacl nacl
    → (k nonce b : Bytes) → length nonce ≡ 24
    → decode_l2_msg codec nacl k (codec.encode (nonce ++ nacl.seal b nonce k)) ≡ done (some b)
unfolding decode_l2_msg slice_to slice_from
decode_l2_msg-seal codec nacl codec_laws nacl_laws k nonce b h =
    let whole = nonce ++ nacl.seal b nonce k in
    let (slice, good) = codec_laws.decode-encode whole in
    rw
      (
        good,
        decode_l2_msg,
        slice_to_prefix 24 (codec.decode (codec.encode whole)) nonce (nacl.seal b nonce k) slice h,
        slice_from_prefix 24 (codec.decode (codec.encode whole)) nonce (nacl.seal b nonce k) slice
            h,
        copy_full 24 nonce h,
        nacl_laws.unseal-seal b nonce k,
      )
      refl
