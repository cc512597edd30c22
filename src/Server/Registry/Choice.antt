-- ===== src/Server/Registry/Choice.antt =====
-- What `GetExit` and `GetGuard` choose, for every draw of `rand.Intn` and every order of `range`.
use minedive.Common.{
  ℕ, ◌+◌, ◌<◌, ◌≡◌, refl, ◌≢◌, ◌↔◌, inl, inr, true, false, List, [], ◌∷◌, none, some, arith, Bytes,
  is_iff, is_refl, ◌==◌, Dict, has, lookup, length, done, panic, Bool-cases, Option-cases,
}
use minedive.Server.State.{MinediveServer}
use minedive.Server.Registry.{pick_past, pick_upto, entry_of, choose, get_exit, get_guard, Draw}

-- The names of an order are the keys of the map.
abbrev pub IsOrder : Dict ℕ → List Bytes → Type 0
IsOrder nodes order = (cn : Bytes) → (has order cn ≡ true) ↔ (lookup cn nodes ≢ none)

pub record IsDraw (nodes : Dict ℕ) (d : Draw) : Type 0 where
  pub below : d.skip < length nodes
  pub first_order : IsOrder nodes d.first
  pub second_order : IsOrder nodes d.second

module _ (avoid : List Bytes) (skip : ℕ) where
  pick_past_sound :
      (i : ℕ) (order : List Bytes) {cn : Bytes}
      → pick_past avoid skip i order ≡ some cn
      → (has avoid cn ≡ false) × (has order cn ≡ true)
  unfolding pick_past has
  pick_past_sound i [] e = cc
  pick_past_sound i (k ∷ order) {cn} e =
      ground (arith, pick_past_sound (i + 1) order {cn = cn}, is_iff k cn)

  pick_upto_sound :
      (i : ℕ) (order : List Bytes) {cn : Bytes}
      → pick_upto avoid skip i order ≡ some cn
      → (has avoid cn ≡ false) × (has order cn ≡ true)
  unfolding pick_upto has
  pick_upto_sound i [] e = cc
  pick_upto_sound i (k ∷ order) {cn} e =
      ground (arith, pick_upto_sound (i + 1) order {cn = cn}, is_iff k cn)

  -- Over one order, the two loops together miss no name.
  avoided_of_none :
      (i : ℕ) (order : List Bytes) (cn : Bytes)
      → pick_past avoid skip i order ≡ none
      → pick_upto avoid skip i order ≡ none
      → has order cn ≡ true
      → has avoid cn ≡ true
  unfolding pick_past pick_upto has
  avoided_of_none i [] cn e f h = cc
  avoided_of_none i (k ∷ order) cn e f h =
      ground (arith, avoided_of_none (i + 1) order cn, is_iff k cn)

  none_of_avoided :
      (i : ℕ) (order : List Bytes)
      → ((cn : Bytes) → has order cn ≡ true → has avoid cn ≡ true)
      → (pick_past avoid skip i order ≡ none) × (pick_upto avoid skip i order ≡ none)
  unfolding pick_past pick_upto has
  none_of_avoided i [] h = (refl, refl)
  none_of_avoided i (k ∷ order) h =
      let ih = none_of_avoided (i + 1) order (λ cn e. h cn (ground arith)) in
      ground (arith, h k, is_refl k, ih)

module _ (nodes : Dict ℕ) (avoid : List Bytes) where
  choose_sound :
      (d : Draw) {p : ℕ}
      → choose nodes avoid d ≡ done (some p)
      → (cn : Bytes) × (lookup cn nodes ≡ some p) × (has avoid cn ≡ false)
  unfolding choose entry_of
  choose_sound d {p} e = elim (Option-cases (pick_past avoid d.skip 0 d.first)) [
    | inr (cn, found) ↦ (cn, ground arith, (pick_past_sound avoid d.skip 0 d.first found).0)
    | inl missed ↦ elim (Option-cases (pick_upto avoid d.skip 0 d.second)) [
      | inr (cn, found) ↦ (cn, ground arith, (pick_upto_sound avoid d.skip 0 d.second found).0)
      | inl nothing ↦ absurd (ground arith)
    ]
  ]

  choose_panics : (d : Draw) → (choose nodes avoid d ≡ panic) ↔ (nodes ≡ [])
  unfolding choose
  choose_panics d = by_nodes nodes
    where
      by_nodes : (ns : Dict ℕ) → (choose ns avoid d ≡ panic) ↔ (ns ≡ [])
      by_nodes [] = (λ e. refl, λ e. refl)
      by_nodes (n ∷ ns) = (λ e. absurd (ground arith), λ e. absurd (ground arith))

  choose_complete :
      (skip : ℕ) (order : List Bytes)
      → nodes ≢ []
      → IsOrder nodes order
      → let d : Draw = record { skip = skip; first = order; second = order } in
        (choose nodes avoid d ≡ done none)
        ↔ ((cn : Bytes) → lookup cn nodes ≢ none → has avoid cn ≡ true)
  unfolding choose entry_of
  choose_complete skip order full ok = (avoided, none_left)
    where
      d : Draw
      d = record { skip = skip; first = order; second = order }

      avoided :
          choose nodes avoid d ≡ done none
          → (cn : Bytes) → lookup cn nodes ≢ none
          → has avoid cn ≡ true
      avoided e cn h = elim (Option-cases (pick_past avoid skip 0 order)) [
        | inr (k, found) ↦
            absurd ((ok k).0 (pick_past_sound avoid skip 0 order found).1 (ground arith))
        | inl missed ↦ elim (Option-cases (pick_upto avoid skip 0 order)) [
          | inr (k, found) ↦
              absurd ((ok k).0 (pick_upto_sound avoid skip 0 order found).1 (ground arith))
          | inl nothing ↦ avoided_of_none avoid skip 0 order cn missed nothing ((ok cn).1 h)
        ]
      ]

      none_left :
          ((cn : Bytes) → lookup cn nodes ≢ none → has avoid cn ≡ true)
          → choose nodes avoid d ≡ done none
      none_left h =
          let (past, upto) = none_of_avoided avoid skip 0 order (λ cn e. h cn ((ok cn).0 e)) in
          elim (Bool-cases (length nodes == 0)) [
            | inl empty ↦ absurd (full ((choose_panics d).0 (rw (empty, choose) refl)))
            | inr some_left ↦ rw (some_left, past, upto, entry_of, choose) refl
          ]

-- A server with two exits, of which the first is to be avoided.
abbrev pub two_nodes : Bytes → ℕ → Bytes → ℕ → Dict ℕ
two_nodes a p b q = (a, p) ∷ (b, q) ∷ []

-- The order that finds the free one too early for the first loop, and the order that finds it
-- too late for the second.
abbrev pub unlucky : Bytes → Bytes → Draw
unlucky a b = record { skip = 0; first = b ∷ a ∷ []; second = a ∷ b ∷ [] }

unlucky-IsDraw : (a b : Bytes) (p q : ℕ) → IsDraw (two_nodes a p b q) (unlucky a b)
unfolding lookup has
unlucky-IsDraw a b p q = record {
  below = omega arith;
  first_order = λ cn. ground (arith, is_iff a cn, is_iff b cn);
  second_order = λ cn. ground (arith, is_iff a cn, is_iff b cn);
}

-- A node that `GetExit` returns is registered as an exit, under a name that is not avoided. It
-- needs nothing of the draw.
pub get_exit_sound :
    (s : MinediveServer) (avoid : List Bytes) (d : Draw) (p : ℕ)
    → get_exit s avoid d ≡ done (some p)
    → (cn : Bytes) × (lookup cn s.exits ≡ some p) × (has avoid cn ≡ false)
unfolding get_exit
get_exit_sound s avoid d p e = choose_sound s.exits avoid d e

-- The same of `GetGuard` and the guards.
pub get_guard_sound :
    (s : MinediveServer) (avoid : List Bytes) (d : Draw) (p : ℕ)
    → get_guard s avoid d ≡ done (some p)
    → (cn : Bytes) × (lookup cn s.guards ≡ some p) × (has avoid cn ≡ false)
unfolding get_guard
get_guard_sound s avoid d p e = choose_sound s.guards avoid d e

-- Where both loops of `GetExit` visit the exits in one order, and there is an exit, it answers "no
-- exits available" exactly when every registered name is avoided.
pub get_exit_complete :
    (s : MinediveServer) (avoid : List Bytes) (skip : ℕ) (order : List Bytes)
    → s.exits ≢ []
    → IsOrder s.exits order
    → (get_exit s avoid (record { skip = skip; first = order; second = order }) ≡ done none)
      ↔ ((cn : Bytes) → lookup cn s.exits ≢ none → has avoid cn ≡ true)
unfolding get_exit
get_exit_complete s avoid skip order full ok = choose_complete s.exits avoid skip order full ok

-- The two `range` loops of `GetGuard` need not agree on an order. With two guards, one avoided and
-- one free, there is a draw that is possible by the language, and for which `GetGuard` answers "no
-- guards available".
pub get_guard_misses :
    (s : MinediveServer) (avoid : List Bytes) (a b : Bytes) (p q : ℕ)
    → s.guards ≡ two_nodes a p b q
    → has avoid a ≡ true
    → has avoid b ≡ false
    → a ≢ b
    → (d : Draw) × IsDraw s.guards d
      × (get_guard s avoid d ≡ done none)
      × (lookup b s.guards ≡ some q)
unfolding get_guard choose pick_past pick_upto entry_of lookup
get_guard_misses s avoid a b p q e ha hb ab = (
  unlucky a b,
  rw e (unlucky-IsDraw a b p q),
  rw e (ground arith),
  rw e (ground (arith, is_iff a b, is_refl b)),
)

-- `GetExit` panics exactly when no exit is registered, whatever is avoided.
pub get_exit_panics :
    (s : MinediveServer) (avoid : List Bytes) (d : Draw)
    → (get_exit s avoid d ≡ panic) ↔ (s.exits ≡ [])
unfolding get_exit
get_exit_panics s avoid d = choose_panics s.exits avoid d

-- The same of `GetGuard` and the guards.
pub get_guard_panics :
    (s : MinediveServer) (avoid : List Bytes) (d : Draw)
    → (get_guard s avoid d ≡ panic) ↔ (s.guards ≡ [])
unfolding get_guard
get_guard_panics s avoid d = choose_panics s.guards avoid d
