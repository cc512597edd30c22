-- ===== src/Mined/Reach/Delivery.antt =====
-- An offer to a node that mined has just proposed.
use minedive.Common.{
  ℕ, ◌≤◌, ◌≡◌, refl, sym, ap, ◌∙◌, ◌⊎◌, inl, inr, [], ◌∷◌, ◌++◌, Option, none, some, arith, Bytes,
  bytes, ◌is◌, Outcome, done, panic, ◌>>=◌, Outcome-cases,
}
use minedive.Protocol.{Cell}
use minedive.Server.State.{MinediveServer, Writes}
use minedive.Server.Registry.{get_exit, get_guard}
use minedive.Server.Registry.Choice.{get_exit_sound, get_guard_sound}
use minedive.Server.Clients.{fwd_loop}
use minedive.Server.Clients.Forwarding.{fwd_to_target-member}
use minedive.Server.Clients.Occurrences.{occurrences, occurrences_split}
use minedive.Mined.{Env, getexit, request_of, handle, reply_node, avoided, minedive_dispatch}
use minedive.Mined.Signaling.{minedive_dispatch-offer}
use minedive.Mined.Reach.{Orderly, IsWellFormed}
use minedive.Mined.Reach.Invariant.{Orderly-IsWellFormed}

-- The requests for a node.
abbrev pub AsksNode : Cell → Type 0
AsksNode m =
    (m.type ≡ bytes "getexit") ⊎ ((m.type ≡ bytes "getguard") ⊎ (m.type ≡ bytes "getbridge"))

-- A client of the slice has the name.
abbrev IsConnected : MinediveServer → Bytes → Type 0
IsConnected s name = (v : ℕ) × (1 ≤ occurrences v s.clients) × ((s.heap v).name ≡ name)

reply_node_named :
    (env : Env) (s : MinediveServer) (cli : ℕ) (m : Cell) (type : Bytes) (nc : Option ℕ)
    (s' : MinediveServer) (w : ℕ) (r : Cell)
    → ((p : ℕ) → nc ≡ some p → 1 ≤ occurrences p s.clients)
    → reply_node env s cli m type nc ≡ done (s', (w, r) ∷ [])
    → (s' ≡ s) × IsConnected s r.d0
unfolding reply_node
reply_node_named env s cli m type none s' w r known e = absurd (ground arith)
reply_node_named env s cli m type (some p) s' w r known e =
    (ground arith, (p, known p refl, ground arith))

module _ (text_of : ℕ → Bytes) (env : Env) (s : MinediveServer) (wf : IsWellFormed text_of s)
    (cli : ℕ) (m : Cell) (s' : MinediveServer) (w : ℕ) (r : Cell) where
  exit_named : handle env s cli m getexit ≡ done (s', (w, r) ∷ []) → (s' ≡ s) × IsConnected s r.d0
  unfolding handle avoided
  exit_named e = elim (Outcome-cases (get_exit s (avoided env s cli m) env.draw)) [
    | inl f ↦ absurd (ground arith)
    | inr (nc, f) ↦
        reply_node_named env s cli m (bytes "exit") nc s' w r
          (λ p h.
            let (cn, found, free) = get_exit_sound s _ env.draw p (f ∙ ap done h) in
            wf.exits_listed cn p found)
          (rw f at e)
  ]

  guard_named :
      (type : Bytes) (o : Outcome (Option ℕ))
      → get_guard s (avoided env s cli m) env.draw ≡ o
      → (o >>= λ nc. reply_node env s cli m type nc) ≡ done (s', (w, r) ∷ [])
      → (s' ≡ s) × IsConnected s r.d0
  guard_named type panic f e = absurd (ground arith)
  guard_named type (done nc) f e =
      reply_node_named env s cli m type nc s' w r
        (λ p h.
          let (cn, found, free) = get_guard_sound s _ env.draw p (f ∙ ap done h) in
          wf.guards_listed cn p found)
        e

  node_named :
      AsksNode m
      → minedive_dispatch env s cli m ≡ done (s', (w, r) ∷ [])
      → (s' ≡ s) × IsConnected s r.d0
  unfolding minedive_dispatch handle request_of ◌is◌ bytes
  node_named (inl t) e = exit_named (rw t at e)
  node_named (inr (inl t)) e = guard_named (bytes "guard") _ refl (rw t at e)
  node_named (inr (inr t)) e = guard_named (bytes "bridge") _ refl (rw t at e)

-- In a run where a client sends "gettid" or "gettssid" only while it is in the slice and no map
-- points to it, an exit, a guard or a bridge that mined proposes is the name of a client of its
-- slice: the offer to that name that comes next, from whatever client, is written to the client's
-- websocket as it is.
pub offer_delivered :
    (text_of : ℕ → Bytes) (env : Env) (s : MinediveServer) (cli : ℕ) (m : Cell)
    (s' : MinediveServer) (w : ℕ) (r : Cell) (env' : Env) (origin : ℕ) (o : Cell)
    → Orderly text_of s
    → AsksNode m
    → minedive_dispatch env s cli m ≡ done (s', (w, r) ∷ [])
    → o.type ≡ bytes "offer"
    → o.d1 ≡ r.d0
    → (v : ℕ) × ((s'.heap v).name ≡ r.d0)
      × (before : Writes) × (after : Writes) × (minedive_dispatch env' s' origin o
          ≡ done (s', before ++ ((s'.heap v).ws, o) ∷ after))
offer_delivered text_of env s cli m s' w r env' origin o reached asks answered t d =
    let (same, connected) =
      node_named text_of env s (Orderly-IsWellFormed text_of s reached) cli m s' w r asks
        answered in
    let (v, listed, named) = connected in
    elim (occurrences_split v s'.clients) [
      | inl absent ↦ absurd (ground (arith, same, absent, listed))
      | inr (front, back, split) ↦
          let here : (s'.heap v).name ≡ r.d0 =
            ap (λ (t : MinediveServer). (t.heap v).name) same ∙ named in
          (
            v,
            here,
            fwd_loop s' o front,
            fwd_loop s' o back,
            minedive_dispatch-offer env' s' origin o t
                ∙ ap (λ (out : Writes). done (s', out))
                    (fwd_to_target-member s' o front back v split (here ∙ sym d)),
          )
    ]
