-- ===== src/Server/Registry/Rotation.antt =====
-- The two loops of `GetExit` and of `GetGuard` as one search: from the drawn place on, round the
-- map.
use minedive.Common.{
  ℕ, zero, suc, ◌+◌, ◌<◌, ◌≡◌, ◌≢◌, refl, ap, ◌∙◌, inl, inr, List, [], ◌∷◌, ◌++◌, Option, none,
  some, arith, Bytes, Dict, has, lookup, take, drop, if◌then◌else◌, done, Bool-cases,
}
use minedive.Server.State.{MinediveServer}
use minedive.Server.Registry.{Draw, pick_past, pick_upto, entry_of, choose, get_guard, get_exit}

-- The reference: the first name that is not avoided, and its entry.
pub first_free : List Bytes → List Bytes → Option Bytes
first_free avoid [] = none
first_free avoid (x ∷ xs) = if has avoid x then first_free avoid xs else some x

pub entry : Dict ℕ → Option Bytes → Option ℕ
entry nodes none = none
entry nodes (some cn) = lookup cn nodes

-- What the two loops look at: the first order past the drawn place, the second one up to it.
abbrev pub rotated : Draw → List Bytes
rotated d = drop (d.skip + 1) d.first ++ take (d.skip + 1) d.second

pick_past-all :
    (avoid : List Bytes) (skip i : ℕ) (order : List Bytes)
    → skip < i
    → pick_past avoid skip i order ≡ first_free avoid order
unfolding pick_past first_free
pick_past-all avoid skip i [] h = refl
pick_past-all avoid skip i (k ∷ order) h = ground (arith, pick_past-all avoid skip (i + 1) order)

pick_past-drop :
    (avoid : List Bytes) (skip n i : ℕ) (order : List Bytes)
    → n + i ≡ skip + 1
    → pick_past avoid skip i order ≡ first_free avoid (drop n order)
unfolding pick_past
pick_past-drop avoid skip zero i order h = pick_past-all avoid skip i order (omega (arith, h))
pick_past-drop avoid skip (suc n) i [] h = unfold first_free in refl
pick_past-drop avoid skip (suc n) i (k ∷ order) h =
    ground (arith, pick_past-drop avoid skip n (i + 1) order)

pick_upto-none :
    (avoid : List Bytes) (skip i : ℕ) (order : List Bytes)
    → skip < i
    → pick_upto avoid skip i order ≡ none
unfolding pick_upto
pick_upto-none avoid skip i [] h = refl
pick_upto-none avoid skip i (k ∷ order) h = ground (arith, pick_upto-none avoid skip (i + 1) order)

pick_upto-take :
    (avoid : List Bytes) (skip n i : ℕ) (order : List Bytes)
    → n + i ≡ skip + 1
    → pick_upto avoid skip i order ≡ first_free avoid (take n order)
unfolding pick_upto first_free
pick_upto-take avoid skip zero i order h = pick_upto-none avoid skip i order (omega (arith, h))
pick_upto-take avoid skip (suc n) i [] h = refl
pick_upto-take avoid skip (suc n) i (k ∷ order) h =
    ground (arith, pick_upto-take avoid skip n (i + 1) order)

-- The search in one list after the other.
entry_of-append :
    (nodes : Dict ℕ) (avoid xs ys : List Bytes)
    → entry_of nodes (first_free avoid xs) (first_free avoid ys)
      ≡ entry nodes (first_free avoid (xs ++ ys))
unfolding entry_of first_free entry
entry_of-append nodes avoid [] ys = by_second (first_free avoid ys)
  where
    by_second : (o : Option Bytes) → entry_of nodes none o ≡ entry nodes o
    by_second none = refl
    by_second (some cn) = refl
entry_of-append nodes avoid (x ∷ xs) ys = elim (Bool-cases (has avoid x)) [
  | inl e ↦ rw e (entry_of-append nodes avoid xs ys)
  | inr e ↦ rw e refl
]

choose-rotated :
    (nodes : Dict ℕ) (avoid : List Bytes) (d : Draw)
    → nodes ≢ []
    → choose nodes avoid d ≡ done (entry nodes (first_free avoid (rotated d)))
unfolding choose
choose-rotated [] avoid d full = absurd (full refl)
choose-rotated (n ∷ nodes) avoid d full =
    let searched : entry_of (n ∷ nodes) (pick_past avoid d.skip 0 d.first)
          (pick_upto avoid d.skip 0 d.second)
        ≡ entry (n ∷ nodes) (first_free avoid (rotated d)) =
      ap (λ (o : Option Bytes). entry_of (n ∷ nodes) o (pick_upto avoid d.skip 0 d.second))
        (pick_past-drop avoid d.skip (d.skip + 1) 0 d.first (omega arith))
      ∙ (ap (entry_of (n ∷ nodes) (first_free avoid (drop (d.skip + 1) d.first)))
            (pick_upto-take avoid d.skip (d.skip + 1) 0 d.second (omega arith))
          ∙ entry_of-append (n ∷ nodes) avoid (drop (d.skip + 1) d.first)
              (take (d.skip + 1) d.second)) in
    ground (arith, searched)

-- On a map with an entry, `GetExit` and `GetGuard` are one search: their result is the entry of
-- the first name that is not avoided, in the list that has the first loop's order after the drawn
-- place and then the second loop's order up to it.
pub get_guard-rotated :
    (s : MinediveServer) (avoid : List Bytes) (d : Draw)
    → s.guards ≢ []
    → s.exits ≢ []
    → (get_guard s avoid d ≡ done (entry s.guards (first_free avoid (rotated d))))
      × (get_exit s avoid d ≡ done (entry s.exits (first_free avoid (rotated d))))
unfolding get_guard get_exit
get_guard-rotated s avoid d guards exits =
    (choose-rotated s.guards avoid d guards, choose-rotated s.exits avoid d exits)
