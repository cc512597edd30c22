-- ===== src/Mined/Reach/Closing.antt =====
-- The end of a connection keeps the server well-formed.
use mathlib.Core.List.{Perm}
use minedive.Common.{
  ℕ, ◌+◌, ◌≡◌, ◌≢◌, inl, inr, true, List, [], ◌∷◌, ◌++◌, some, arith, Bytes, is_iff, lookup,
  lookup-erase,
}
use minedive.Server.State.{MinediveServer, MinediveClient}
use minedive.Server.Registry.{del_exit, del_guard}
use minedive.Server.Clients.{unregister, disconnect}
use minedive.Server.Clients.Removal.{delete_client_by_name-first}
use minedive.Server.Clients.Occurrences.{
  occurrences, occurrences-append, occurrences-Perm, named_split, delete_client_by_name-missing,
}
use minedive.Mined.Reach.{IsConsistent, IsWellFormed}

-- What `unregister` leaves: fewer entries, and none of a name whose flag is set.
record IsUnnamed (c : MinediveClient) (s s' : MinediveServer) : Type 0 where
  pub same_heap : s'.heap ≡ s.heap
  pub same_clients : s'.clients ≡ s.clients
  pub same_allocated : s'.allocated ≡ s.allocated
  pub same_next_id : s'.next_id ≡ s.next_id
  pub exits_left :
      (cn : Bytes) (p : ℕ)
      → lookup cn s'.exits ≡ some p
      → (lookup cn s.exits ≡ some p) × (c.exit ≡ true → cn ≢ c.name)
  pub guards_left :
      (cn : Bytes) (p : ℕ)
      → lookup cn s'.guards ≡ some p
      → (lookup cn s.guards ≡ some p) × (c.guard ≡ true → cn ≢ c.name)

unregister-IsUnnamed : (c : MinediveClient) (s : MinediveServer) → IsUnnamed c s (unregister c s)
unfolding unregister del_exit del_guard
unregister-IsUnnamed c s = record {
  same_heap = ground arith;
  same_clients = ground arith;
  same_allocated = ground arith;
  same_next_id = ground arith;
  exits_left = λ cn p e. ground (arith, lookup-erase cn c.name s.exits, is_iff c.name cn);
  guards_left = λ cn p e. ground (arith, lookup-erase cn c.name s.guards, is_iff c.name cn);
}

module _ (text_of : ℕ → Bytes) (s : MinediveServer) where
  removed_counts :
      (front back rest : List ℕ) (v : ℕ)
      → s.clients ≡ front ++ v ∷ back
      → Perm rest (front ++ back)
      → (p : ℕ) → occurrences p s.clients ≡ occurrences p rest + occurrences p (v ∷ [])
  unfolding occurrences
  removed_counts front back rest v listed kept p = ground (
    arith,
    listed,
    occurrences-append p front (v ∷ back),
    occurrences-append p front back,
    occurrences-Perm p kept,
  )

  removed-IsConsistent :
      IsConsistent text_of s
      → (front back rest : List ℕ) (v : ℕ) → s.clients ≡ front ++ v ∷ back
      → Perm rest (front ++ back)
      → IsConsistent text_of (unregister (s.heap v) (record s { clients = rest }))
  removed-IsConsistent w front back rest v listed kept =
      let u = unregister-IsUnnamed (s.heap v) (record s { clients = rest }) in
      let counts = removed_counts front back rest v listed kept in
      record {
        exits_flagged = λ cn p e.
            ground
              (arith, u.same_heap, u.same_allocated, u.exits_left cn p e, w.exits_flagged cn p);
        guards_flagged = λ cn p e.
            ground
              (arith, u.same_heap, u.same_allocated, u.guards_left cn p e, w.guards_flagged cn p);
        once = λ p. ground (arith, u.same_clients, w.once p, counts p);
        below = λ p h. ground (arith, u.same_clients, u.same_allocated, w.below p, counts p);
        counted = ground (arith, u.same_next_id, u.same_allocated, w.counted);
        ids = λ p h. ground (arith, u.same_heap, u.same_allocated, w.ids p);
      }

  pub disconnect-IsConsistent :
      (p : ℕ) → IsConsistent text_of s → IsConsistent text_of (disconnect p s)
  unfolding disconnect
  disconnect-IsConsistent p w = elim (named_split s (s.heap p).name s.clients) [
    | inl other ↦ rw (delete_client_by_name-missing s (s.heap p).name other, disconnect) w
    | inr (front, back, v, listed, before, named) ↦
        let (rest, gone, kept) =
          delete_client_by_name-first s (s.heap p).name front back v listed before named in
        rw (gone, disconnect) (removed-IsConsistent w front back rest v listed kept)
  ]

  -- An entry that stays after client `v` has gone points to another client.
  removed-IsWellFormed :
      IsWellFormed text_of s
      → (front back rest : List ℕ) (v : ℕ) → s.clients ≡ front ++ v ∷ back
      → Perm rest (front ++ back)
      → IsWellFormed text_of (unregister (s.heap v) (record s { clients = rest }))
  unfolding occurrences
  removed-IsWellFormed w front back rest v listed kept =
      let u = unregister-IsUnnamed (s.heap v) (record s { clients = rest }) in
      let counts = removed_counts front back rest v listed kept in
      record {
        keyed = record {
          exits_named =
              λ cn p e. ground (arith, u.same_heap, u.exits_left cn p e, w.keyed.exits_named cn p);
          guards_named = λ cn p e.
              ground (arith, u.same_heap, u.guards_left cn p e, w.keyed.guards_named cn p);
        };
        exits_listed = λ cn p e. ground (
          arith,
          u.same_clients,
          u.exits_left cn p e,
          w.keyed.exits_named cn p,
          w.exits_listed cn p,
          counts p,
        );
        guards_listed = λ cn p e. ground (
          arith,
          u.same_clients,
          u.guards_left cn p e,
          w.keyed.guards_named cn p,
          w.guards_listed cn p,
          counts p,
        );
        consistent = removed-IsConsistent w.consistent front back rest v listed kept;
      }

  pub disconnect-IsWellFormed :
      (p : ℕ) → IsWellFormed text_of s → IsWellFormed text_of (disconnect p s)
  unfolding disconnect
  disconnect-IsWellFormed p w = elim (named_split s (s.heap p).name s.clients) [
    | inl other ↦ rw (delete_client_by_name-missing s (s.heap p).name other, disconnect) w
    | inr (front, back, v, listed, before, named) ↦
        let (rest, gone, kept) =
          delete_client_by_name-first s (s.heap p).name front back v listed before named in
        rw (gone, disconnect) (removed-IsWellFormed w front back rest v listed kept)
  ]
