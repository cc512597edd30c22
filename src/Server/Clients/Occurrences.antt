-- ===== src/Server/Clients/Occurrences.antt =====
-- How often a client stands in the slice `clients`.
use mathlib.Core.Logic.{∥∥₁_elim}
use mathlib.Core.List.{Perm, Permᴰ}
use minedive.Common.{
  ℕ, ◌+◌, ◌≡◌, refl, ap, ◌∙◌, ◌⊎◌, inl, inr, List, [], ◌∷◌, ◌++◌, arith, ◌==◌, if◌then◌else◌,
  is_iff, Bytes, ◌is◌, Bool-cases, false, none,
}
use minedive.Server.State.{MinediveServer}
use minedive.Server.Clients.{find_index, delete_client_by_name}
use minedive.Server.Clients.Removal.{NoneNamed}

unfoldable pub occurrences : ℕ → List ℕ → ℕ
occurrences p [] = 0
occurrences p (c ∷ cs) = let rest = occurrences p cs in if c == p then rest + 1 else rest

pub occurrences-append :
    (p : ℕ) (xs ys : List ℕ) → occurrences p (xs ++ ys) ≡ occurrences p xs + occurrences p ys
unfolding occurrences
occurrences-append p [] ys = omega arith
occurrences-append p (x ∷ xs) ys = ground (arith, occurrences-append p xs ys)

occurrences-Permᴰ : (p : ℕ) {xs ys : List ℕ} → Permᴰ xs ys → occurrences p xs ≡ occurrences p ys
unfolding occurrences
occurrences-Permᴰ p Permᴰ.nil = refl
occurrences-Permᴰ p (Permᴰ.cons e d) = ground (arith, e, occurrences-Permᴰ p d)
occurrences-Permᴰ p (Permᴰ.swap e f) = ground (arith, e, f)
occurrences-Permᴰ p (Permᴰ.trans d e) = occurrences-Permᴰ p d ∙ occurrences-Permᴰ p e

pub occurrences-Perm : (p : ℕ) {xs ys : List ℕ} → Perm xs ys → occurrences p xs ≡ occurrences p ys
occurrences-Perm p {xs} {ys} h =
    ∥∥₁_elim {P = occurrences p xs ≡ occurrences p ys} h (hlevel) (occurrences-Permᴰ p)

pub occurrences_split :
    (p : ℕ) (cs : List ℕ)
    → (occurrences p cs ≡ 0) ⊎ ((front : List ℕ) × (back : List ℕ) × (cs ≡ front ++ p ∷ back))
unfolding occurrences
occurrences_split p [] = inl refl
occurrences_split p (c ∷ cs) = elim (Bool-cases (c == p)) [
  | inl e ↦ inr ([], cs, ap (λ (q : ℕ). q ∷ cs) (ground arith))
  | inr e ↦ elim (occurrences_split p cs) [
    | inl absent ↦ inl (ground arith)
    | inr (front, back, split) ↦ inr (c ∷ front, back, ap (◌∷◌ c) split)
  ]
]

-- The first client of a name, if there is one.
pub named_split :
    (s : MinediveServer) (name : Bytes) (cs : List ℕ)
    → NoneNamed s name cs
      ⊎ ((front : List ℕ) × (back : List ℕ) × (v : ℕ) × (cs ≡ front ++ v ∷ back)
          × NoneNamed s name front
          × ((s.heap v).name ≡ name))
named_split s name [] = inl tt
named_split s name (c ∷ cs) = elim (Bool-cases ((s.heap c).name is name)) [
  | inl e ↦ inr ([], cs, c, refl, tt, (is_iff (s.heap c).name name).0 e)
  | inr ne ↦ elim (named_split s name cs) [
    | inl other ↦ inl (ne, other)
    | inr (front, back, v, split, other, named) ↦
        inr (c ∷ front, back, v, ap (◌∷◌ c) split, (ne, other), named)
  ]
]

find_index-none :
    (s : MinediveServer) (name : Bytes) (n : ℕ) (cs : List ℕ)
    → NoneNamed s name cs
    → find_index s name n cs ≡ none
unfolding find_index
find_index-none s name n [] h = refl
find_index-none s name n (c ∷ cs) (ne, other) = rw ne (find_index-none s name (n + 1) cs other)

pub delete_client_by_name-missing :
    (s : MinediveServer) (name : Bytes)
    → NoneNamed s name s.clients
    → delete_client_by_name name s ≡ (s, false)
unfolding delete_client_by_name
delete_client_by_name-missing s name other =
    rw (find_index-none s name 0 s.clients other, delete_client_by_name) refl
