-- ===== src/Server/Clients/Departure.antt =====
-- A client that has left.
use mathlib.Core.List.{Perm}
use minedive.Common.{
  ℕ, ◌≡◌, ◌≢◌, refl, ap, ◌∙◌, subst, inl, inr, Bool, false, List, [], ◌∷◌, ◌++◌, arith, Bytes, ◌is◌,
  Dict, Bool-cases, ◌==◌,
}
use minedive.Protocol.{Cell}
use minedive.Server.State.{MinediveServer, MinediveClient}
use minedive.Server.Registry.{del_exit, del_guard}
use minedive.Server.Clients.{unregister, disconnect, fwd_loop, fwd_to_target}
use minedive.Server.Clients.Removal.{NoneNamed, delete_client_by_name-first}
use minedive.Server.Clients.Occurrences.{occurrences, occurrences-append, occurrences-Perm}

-- The server with other clients and other maps.
abbrev pub with_clients : MinediveServer → List ℕ → Dict ℕ → Dict ℕ → MinediveServer
with_clients s cs ex gu = record s { clients = cs; exits = ex; guards = gu }

unregister_shape :
    (c : MinediveClient) (s : MinediveServer) (cs : List ℕ)
    → let s' = unregister c (record s { clients = cs }) in s' ≡ with_clients s cs s'.exits s'.guards
unfolding unregister del_exit del_guard
unregister_shape c s cs = elim (Bool-cases c.exit) [
  | inl e ↦ elim (Bool-cases c.guard) [
    | inl g ↦ rw (e, g, unregister) refl
    | inr g ↦ rw (e, g, unregister) refl
  ]
  | inr e ↦ elim (Bool-cases c.guard) [
    | inl g ↦ rw (e, g, unregister) refl
    | inr g ↦ rw (e, g, unregister) refl
  ]
]

-- No client of a list has the name, where all clients that stand in it come from such a list.
fwd_loop-none :
    (s : MinediveServer) (m : Cell) (cs : List ℕ)
    → ((c : ℕ) → occurrences c cs ≢ 0 → ((s.heap c).name is m.d1) ≡ false)
    → fwd_loop s m cs ≡ []
unfolding fwd_loop occurrences
fwd_loop-none s m [] h = refl
fwd_loop-none s m (c ∷ cs) h =
    rw (h c (ground arith)) (fwd_loop-none s m cs (λ q there. h q (ground (arith, there))))

unnamed :
    (s : MinediveServer) (name : Bytes) (cs : List ℕ) (c : ℕ)
    → NoneNamed s name cs
    → occurrences c cs ≢ 0
    → ((s.heap c).name is name) ≡ false
unfolding occurrences
unnamed s name [] c h there = absurd (there refl)
unnamed s name (x ∷ cs) c (other, h) there = elim (Bool-cases (x == c)) [
  | inl same ↦
      let at : x ≡ c = ground (arith, same) in
      subst (λ (y : ℕ). ((s.heap y).name is name) ≡ false) at other
  | inr differs ↦ unnamed s name cs c h (ground (arith, there, differs))
]

unnamed_rest :
    (s : MinediveServer) (name : Bytes) (front back rest : List ℕ) (c : ℕ)
    → NoneNamed s name front
    → NoneNamed s name back
    → Perm rest (front ++ back)
    → occurrences c rest ≢ 0
    → ((s.heap c).name is name) ≡ false
unnamed_rest s name front back rest c before after kept there =
    let counts = occurrences-Perm c kept ∙ occurrences-append c front back in
    elim (Bool-cases (occurrences c front == 0)) [
      | inl none_before ↦
          unnamed s name back c after (λ e. there (ground (arith, counts, none_before, e)))
      | inr some_before ↦ unnamed s name front c before (ground (arith, some_before))
    ]

-- After a client has left that had no namesake, the server is the same but for its slice and its
-- maps, and a cell to the name of the client is written to nobody.
pub disconnect_unnamed :
    (s : MinediveServer) (p : ℕ) (front back : List ℕ)
    → s.clients ≡ front ++ p ∷ back
    → NoneNamed s (s.heap p).name front
    → NoneNamed s (s.heap p).name back
    → (cs : List ℕ) × (ex : Dict ℕ) × (gu : Dict ℕ) × (disconnect p s ≡ with_clients s cs ex gu)
      × ((m : Cell) → m.d1 ≡ (s.heap p).name → fwd_to_target (with_clients s cs ex gu) m ≡ [])
unfolding disconnect fwd_to_target
disconnect_unnamed s p front back listed before after =
    let name = (s.heap p).name in
    let (rest, removed, kept) =
      delete_client_by_name-first s name front back p listed before refl in
    let s1 = unregister (s.heap p) (record s { clients = rest }) in
    (
      rest,
      s1.exits,
      s1.guards,
      ap (λ (r : MinediveServer × Bool). r.0) removed ∙ unregister_shape (s.heap p) s rest,
      λ m to.
          fwd_loop-none (with_clients s rest s1.exits s1.guards) m rest
            (λ c there. rw to (unnamed_rest s name front back rest c before after kept there)),
    )
