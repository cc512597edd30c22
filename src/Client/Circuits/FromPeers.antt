-- ===== src/Client/Circuits/FromPeers.antt =====
-- circuit.go: `BuildCircuitZ`, a circuit from the peers that a node has.
use minedive.Common.{
  ℕ, zero, suc, ◌+◌, ◌≤◌, ◌≡◌, refl, ap, ◌∙◌, inl, inr, not, ◌&&◌, List, [], ◌∷◌, Option, none,
  some, arith, Bytes, ◌is◌, ltb, if◌then◌else◌, lookup, Outcome, done, panic, ◌>>=◌, Bool-cases,
  Outcome-cases,
}
use minedive.Client.State.{Client, Circuit}

-- The name of a peer; a nil peer panics.
name_of : Client → Option ℕ → Outcome Bytes
name_of m none = panic
name_of m (some v) = done (m.peer v).name

-- The first loop: the first exit in the order of the `range`, or what `en` was.
pick_exit : Client → Option ℕ → List Bytes → Option ℕ
pick_exit m en [] = en
pick_exit m en (k ∷ order) =
    let rest = pick_exit m en order in
    elim (lookup k m.l1_peers) [ none ↦ rest | some v ↦ if (m.peer v).exit then some v else rest ]

-- The other two loops: the first peer that has neither name.
pick_other : Client → Bytes → Bytes → List Bytes → Option ℕ
pick_other m a b [] = none
pick_other m a b (k ∷ order) =
    let rest = pick_other m a b order in
    elim (lookup k m.l1_peers) [
      | none ↦ rest
      | some v ↦ if not ((m.peer v).name is a) && not ((m.peer v).name is b) then some v else rest
    ]

-- From FIND_EXIT on, with the order of the `range` at each try: the exit, which may be nil. The
-- outer `none` is that the fuel ran out.
find_exit : ℕ → Client → (ℕ → List Bytes) → ℕ → Option ℕ → Option (Outcome Bytes)
unfolding pick_exit name_of
find_exit zero m orders tries en = none
find_exit (suc fuel) m orders tries en =
    let en' = pick_exit m en (orders tries) in
    let again = find_exit fuel m orders (tries + 1) en' in
    elim (name_of m en') [
      | panic ↦ some panic
      | done name ↦ if (name is []) && ltb tries 30 then again else some (done name)
    ]

-- An assignment through the pointer `c`, which is nil for `none`.
assign : Option Circuit → (Circuit → Circuit) → Outcome (Option Circuit)
assign none f = panic
assign (some c) f = done (some (f c))

-- After FIND_EXIT, on the named result `c`.
fill_circuit : Client → List Bytes → List Bytes → Bytes → Option Circuit → Outcome (Option Circuit)
unfolding pick_other name_of assign
fill_circuit m second third en c = do
  c1 ← assign c (λ z. record z { exit = record z.exit { id = en } })
  br ← name_of m (pick_other m en en second)
  c2 ← assign c1 (λ z. record z { bridge = record z.bridge { id = br } })
  gu ← name_of m (pick_other m en br third)
  assign c2 (λ z. record z { guard = record z.guard { id = gu } })

-- `c` is a named result, and no statement makes a circuit for it.
build_from :
    Client → List Bytes → List Bytes → Option (Outcome Bytes) → Option (Outcome (Option Circuit))
unfolding fill_circuit
build_from m second third none = none
build_from m second third (some panic) = some panic
build_from m second third (some (done en)) = some (fill_circuit m second third en none)

pub build_circuit_z :
    ℕ → Client → (ℕ → List Bytes) → List Bytes → List Bytes → Option (Outcome (Option Circuit))
unfolding find_exit build_from
build_circuit_z fuel m orders second third =
    build_from m second third (find_exit fuel m orders 0 none)

find_exit_ends :
    (fuel : ℕ) (m : Client) (orders : ℕ → List Bytes) (tries : ℕ) (en : Option ℕ)
    → 31 ≤ fuel + tries
    → tries ≤ 30
    → (o : Outcome Bytes) × (find_exit fuel m orders tries en ≡ some o)
unfolding find_exit
find_exit_ends zero m orders tries en enough low = absurd (omega arith)
find_exit_ends (suc fuel) m orders tries en enough low =
    let en' = pick_exit m en (orders tries) in
    elim (Outcome-cases (name_of m en')) [
      | inl nil ↦ (panic, rw (nil, find_exit) refl)
      | inr (name, found) ↦ elim (Bool-cases ((name is []) && ltb tries 30)) [
        | inl again ↦
            let below : tries + 1 ≤ 30 = ground (arith, again) in
            let (o, e) = find_exit_ends fuel m orders (tries + 1) en' (omega arith) below in
            (o, rw (found, find_exit, again) e)
        | inr enough_now ↦ (done name, rw (found, find_exit, enough_now) refl)
      ]
    ]

-- `BuildCircuitZ` panics whatever peers the node has: after 31 tries at most, either at a
-- nil exit, or where it writes to the circuit that it never made.
pub build_circuit_z_panics :
    (m : Client) (orders : ℕ → List Bytes) (second third : List Bytes)
    → build_circuit_z 31 m orders second third ≡ some panic
unfolding build_circuit_z build_from fill_circuit assign
build_circuit_z_panics m orders second third =
    let (o, e) = find_exit_ends 31 m orders 0 none (omega arith) (omega arith) in
    ap (build_from m second third) e ∙ by_outcome o
  where
    by_outcome : (o : Outcome Bytes) → build_from m second third (some o) ≡ some panic
    by_outcome panic = refl
    by_outcome (done en) = refl
