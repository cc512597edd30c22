-- ===== src/Client/Rendezvous/Introduction.antt =====
-- How the server makes two nodes know one another: `SendPeer` of server.go and `userlistHandler`.
use minedive.Common.{
  ℕ, ◌≡◌, refl, ap, ◌∙◌, inl, inr, true, false, List, [], ◌∷◌, Option, none, some, arith, Bytes,
  bytes, ◌is◌, is_iff, All, done, Bool-cases,
}
use minedive.Codec.{Codec, IsCodec}
use minedive.Protocol.{Cell, zero_cell}
use minedive.Server.State.{MinediveServer, MinediveClient}
use minedive.Server.Clients.{get_other_peer}
use minedive.Server.Aliases.{cell_members, jb64, get_alias, flag_of, send_peer}
use minedive.Client.State.{Client, Effect, dial_peer}
use minedive.Client.Peers.{peer_is_present}
use minedive.Client.Rendezvous.{Env, userlist, reply_of, meet, userlist_handler, handle, ws_step}

-- All texts of the cell are UTF-8.
abbrev pub IsText : Codec → Cell → Type 0
IsText codec m = All (λ s. codec.valid s ≡ true) (m.type ∷ m.d0 ∷ m.d1 ∷ m.d2 ∷ m.d3 ∷ [])

-- `json.Unmarshal` into a cell reads back what `json.Marshal` wrote, and fails on the empty text.
pub record IsUnmarshal (codec : Codec) (unmarshal : Bytes → Option Cell) : Type 0 where
  pub unmarshal-print :
      (m : Cell) → IsText codec m → unmarshal (codec.print (cell_members m)) ≡ some m
  pub unmarshal_empty : unmarshal [] ≡ none

reply_of_userlist : reply_of (bytes "userlist") ≡ userlist
unfolding reply_of ◌is◌ bytes
reply_of_userlist = refl

flag_of-exit : (c : MinediveClient) → (flag_of c is bytes "e") ≡ c.exit
unfolding flag_of ◌is◌ bytes
flag_of-exit c = ground arith

flag_of-valid :
    (codec : Codec) → IsCodec codec → (c : MinediveClient) → codec.valid (flag_of c) ≡ true
unfolding flag_of bytes
flag_of-valid codec laws c = elim (Bool-cases c.exit) [
  | inl e ↦ rw e (laws.valid_ascii (101 ∷ []) (omega arith, tt))
  | inr e ↦ rw e (laws.valid_ascii [] tt)
]

module _ (env : Env) (laws : IsCodec env.codec) (text : IsUnmarshal env.codec env.unmarshal) where
  userlist_handler-jb64 :
      (c : Client) (cell user : Cell)
      → IsText env.codec user
      → cell.d1 ≡ jb64 env.codec env.nacl user
      → userlist_handler env c cell ≡ meet env c cell user
  unfolding userlist_handler jb64
  userlist_handler-jb64 c cell user valid h =
      let b = env.codec.print (cell_members user) in
      let (slice, good) = laws.decode-encode b in
      let read = text.unmarshal-print user valid in
      elim (Bool-cases (b is [])) [
        | inl e ↦ absurd (ground (arith, is_iff b [], read, text.unmarshal_empty))
        | inr e ↦ rw (h, slice, good, e, read) refl
      ]

  ws_step-jb64 :
      (c : Client) (cell user : Cell)
      → cell.type ≡ bytes "userlist"
      → IsText env.codec user
      → cell.d1 ≡ jb64 env.codec env.nacl user
      → ws_step env c cell ≡ done (c, meet env c cell user)
  unfolding ws_step handle
  ws_step-jb64 c cell user ht valid h =
      ap (handle env c cell) (ap reply_of ht ∙ reply_of_userlist)
      ∙ ap (λ (l : List Effect). done (c, l)) (userlist_handler-jb64 c cell user valid h)

  -- The user that `SendPeer` tells of, and the cell that it does so with.
  abbrev user_cell : Bytes → Bytes → MinediveClient → Cell
  user_cell type alias u = record zero_cell { type = type; d0 = u.name; d1 = alias; d2 = flag_of u }

  abbrev told : Bytes → Cell → Cell
  told d0 user = record zero_cell {
    type = bytes "userlist";
    d0 = d0;
    d1 = jb64 env.codec env.nacl user;
  }

  ws_step-told :
      (c : Client) (d0 type alias : Bytes) (u : MinediveClient)
      → env.codec.valid type ≡ true
      → env.codec.valid alias ≡ true
      → env.codec.valid u.name ≡ true
      → peer_is_present c u.name ≡ false
      → ws_step env c (told d0 (user_cell type alias u))
        ≡ done (c, dial_peer u.name alias (d0 is bytes "1") u.exit ∷ [])
  unfolding meet
  ws_step-told c d0 type alias u vt va vn absent =
      let empty = laws.valid_ascii [] tt in
      let texts : IsText env.codec (user_cell type alias u) =
        (vt, (vn, (va, (flag_of-valid env.codec laws u, (empty, tt))))) in
      ws_step-jb64 c (told d0 (user_cell type alias u)) (user_cell type alias u) refl texts refl
      ∙ rw (absent, flag_of-exit u) refl

  -- The server makes two clients known to one another: it writes one cell to each, and each node
  -- that gets its cell, if it does not know the other yet, dials the other by the name that the
  -- server has for it, under the alias that the server made for it, with the flag that tells
  -- whether it is an exit. The one that asked waits for the other, which is to begin. The names of
  -- the two are UTF-8.
  pub send_peer_introduces :
      (s : MinediveServer) (cli i other : ℕ) (asking asked : Client)
      → get_other_peer s cli i ≡ some other
      → env.codec.valid (s.heap cli).name ≡ true
      → env.codec.valid (s.heap other).name ≡ true
      → peer_is_present asking (s.heap other).name ≡ false
      → peer_is_present asked (s.heap cli).name ≡ false
      → let a = s.heap cli in
        let b = s.heap other in
        (x y : Cell) × (send_peer env.codec env.nacl s cli i ≡ (a.ws, x) ∷ (b.ws, y) ∷ [])
        × (ws_step env asking x
            ≡ done (
              asking,
              dial_peer b.name (get_alias env.codec env.nacl a b.name) false b.exit ∷ [],
            ))
        × (ws_step env asked y
            ≡ done
                (asked, dial_peer a.name (get_alias env.codec env.nacl b a.name) true a.exit ∷ []))
  unfolding send_peer get_alias bytes ◌is◌
  send_peer_introduces s cli i other asking asked found va vb na nb =
      let a = s.heap cli in
      let b = s.heap other in
      let empty = laws.valid_ascii [] tt in
      let user =
        laws.valid_ascii (bytes "user")
          (omega arith, (omega arith, (omega arith, (omega arith, tt)))) in
      (
        told (bytes "0") (user_cell [] (get_alias env.codec env.nacl a b.name) b),
        told (bytes "1") (user_cell (bytes "user") (get_alias env.codec env.nacl b a.name) a),
        rw (found, send_peer) refl,
        ws_step-told asking (bytes "0") [] _ b empty (laws.valid-encode _) vb na,
        ws_step-told asked (bytes "1") (bytes "user") _ a user (laws.valid-encode _) va nb,
      )
