-- ===== src/Client/L2.antt =====
-- client.go: second-level peers, which are reached through a gateway under an alias.
pub mod Decoding
use minedive.Common.{
  ℕ, zero, suc, ◌+◌, Bool, true, false, List, [], ◌∷◌, ◌++◌, Option, none, some, Bytes, bytes,
  if◌then◌else◌, replicate, lookup, insert, erase, length, Outcome, done, panic, ◌>>=◌,
}
use minedive.Codec.{Codec, Nacl, slice_to, slice_from, copy}
use minedive.Nonce.{inc_nonce}
use minedive.Protocol.{zero_cell}
use minedive.Server.Aliases.{or_panic}
use minedive.Wire.{FwdMsg, zero_fwd, fwd_members}
use minedive.Client.State.{Client, L2Peer, Effect, send_text, send_cell, put_l2}

unfoldable pub get_n_l2_peers : Client → ℕ
get_n_l2_peers c = length c.l2_peers

-- The loop over the map that compares each key with the name finds the entry of the name.
unfoldable pub get_l2_peer_if_exists : Client → Bytes → Option ℕ
get_l2_peer_if_exists c name = lookup name c.l2_peers

unfoldable pub delete_l2_peer : Bytes → Client → Client
delete_l2_peer name c = elim (lookup name c.l2_peers) [
  | none ↦ c
  | some l2 ↦ record c { l2_peers = erase name c.l2_peers }
]

unfoldable pub add_l2_peer : ℕ → Client → Client
add_l2_peer l2 c = record c { l2_peers = insert (c.l2 l2).name l2 c.l2_peers }

-- `l2.GW = gw` where the gateway is nil.
fill_gateway : ℕ → Option ℕ → Client → Client
fill_gateway l2 gw c = elim (c.l2 l2).gw [
  | none ↦ put_l2 l2 (record (c.l2 l2) { gw = gw }) c
  | some g ↦ c
]

-- The peer that `GetL2Peer` allocates.
abbrev pub new_l2_peer : Bytes → Option ℕ → L2Peer
new_l2_peer name gw = record {
  name = name;
  gw = gw;
  ononce = replicate 24 0;
  msg_ignored = 1;
  state = bytes "from-msg";
  k = replicate 32 0;
  pk = replicate 32 0;
}

-- The request for a key names the gateway; a nil gateway panics.
ask_key : Client → Bytes → Option ℕ → Bool → Outcome (List Effect)
ask_key c name gw false = done []
ask_key c name none true = panic
ask_key c name (some g) true =
    done
      (send_cell (record zero_cell { type = bytes "getkey"; d0 = name; d1 = (c.peer g).name }) ∷ [])

unfoldable pub get_l2_peer : Client → Bytes → Option ℕ → Bool → Outcome (Client × ℕ × List Effect)
unfolding fill_gateway ask_key
get_l2_peer c name gw ask = elim (get_l2_peer_if_exists c name) [
  | some l2 ↦ done (fill_gateway l2 gw c, l2, [])
  | none ↦ do
    let l2 = c.free
    let c' = put_l2 l2 (new_l2_peer name gw) (record c { free = l2 + 1 })
    out ← ask_key c name gw ask
    done (add_l2_peer l2 c', l2, out)
]

-- The loop `for l2.MsgIgnored > 0` of the "key" cell.
unfoldable pub skip_nonces : ℕ → Bytes → Bytes
skip_nonces zero ononce = ononce
skip_nonces (suc ignored) ononce = skip_nonces ignored (inc_nonce ononce (length ononce)).0

module _ (codec : Codec) (nacl : Nacl) where
  -- The new peer, as its nonce moves on, and the message. `secretbox.Seal` appends the box to the
  -- nonce. A nil gateway panics.
  unfoldable pub send_l2 : Client → ℕ → Bytes → Outcome (Client × List Effect)
  send_l2 c l2 b = do
    let peer = c.l2 l2
    let enc = peer.ononce ++ nacl.seal b peer.ononce peer.k
    let c' = put_l2 l2 (record peer { ononce = (inc_nonce peer.ononce (length peer.ononce)).0 }) c
    let m : FwdMsg = record zero_fwd {
      from = c.tid;
      type = bytes "fwd";
      to = peer.name;
      msg = codec.encode enc;
    }
    gw ← or_panic peer.gw
    done (c', send_text (c.peer gw).dc (codec.print (fwd_members m)) ∷ [])

  -- `none` in the result is the result false.
  unfoldable pub decode_l2_msg : Bytes → Bytes → Outcome (Option Bytes)
  decode_l2_msg k emsg =
      let encrypted = codec.decode emsg in
      let opened = (do
        nonce ← or_panic (slice_to 24 encrypted)
        box ← or_panic (slice_from 24 encrypted)
        done (nacl.unseal box (copy (replicate 24 0) nonce) k)) in
      if encrypted.good then opened else done none

-- `ListL2Peers`: the names that it prints, in the order of the `range`.
list_l2_peers : Option Client → List Bytes → List Bytes
list_l2_peers none order = []
list_l2_peers (some c) [] = []
list_l2_peers (some c) (k ∷ order) =
    let rest = list_l2_peers (some c) order in
    elim (lookup k c.l2_peers) [ none ↦ rest | some p ↦ k ∷ rest ]
