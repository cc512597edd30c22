-- ===== src/Common/Lists.antt =====
-- Lists measured by native numbers, and a predicate that holds of all items.
use Prim.Native.Nat.{ℕ, zero, suc, ◌+◌, ◌-◌}
use mathlib.Core.Path.{◌≡◌, refl, ap}
use mathlib.Core.List.{List, [], ◌∷◌, ◌++◌}
use native.Mathlib.Omega.{arith}

module _ {ℓ} {A : Type ℓ} where
  abbrev pub length : List A → ℕ
  length [] = 0
  length (x ∷ xs) = suc (length xs)

  abbrev pub take : ℕ → List A → List A
  take zero xs = []
  take (suc n) [] = []
  take (suc n) (x ∷ xs) = x ∷ take n xs

  abbrev pub drop : ℕ → List A → List A
  drop zero xs = xs
  drop (suc n) [] = []
  drop (suc n) (x ∷ xs) = drop n xs

  abbrev pub replicate : ℕ → A → List A
  replicate zero a = []
  replicate (suc n) a = a ∷ replicate n a

  pub length-append : (xs ys : List A) → length (xs ++ ys) ≡ length xs + length ys
  length-append [] ys = omega arith
  length-append (x ∷ xs) ys = omega (arith, length-append xs ys)

  pub length-replicate : (n : ℕ) (a : A) → length (replicate n a) ≡ n
  length-replicate zero a = refl
  length-replicate (suc n) a = ap suc (length-replicate n a)

  pub length-drop : (n : ℕ) (xs : List A) → length (drop n xs) ≡ length xs - n
  length-drop zero xs = omega arith
  length-drop (suc n) [] = omega arith
  length-drop (suc n) (x ∷ xs) = omega (arith, length-drop n xs)

  pub take-append_left : (n : ℕ) (xs ys : List A) → length xs ≡ n → take n (xs ++ ys) ≡ xs
  take-append_left zero [] ys h = refl
  take-append_left zero (x ∷ xs) ys h = absurd (omega arith)
  take-append_left (suc n) [] ys h = absurd (omega arith)
  take-append_left (suc n) (x ∷ xs) ys h = ap (◌∷◌ x) (take-append_left n xs ys (omega arith))

  pub drop-append_left : (n : ℕ) (xs ys : List A) → length xs ≡ n → drop n (xs ++ ys) ≡ ys
  drop-append_left zero [] ys h = refl
  drop-append_left zero (x ∷ xs) ys h = absurd (omega arith)
  drop-append_left (suc n) [] ys h = absurd (omega arith)
  drop-append_left (suc n) (x ∷ xs) ys h = drop-append_left n xs ys (omega arith)

  abbrev pub All {κ} : (A → Type κ) → List A → Type κ
  All P [] = Unit
  All P (x ∷ xs) = P x × All P xs

  pub All-append {κ} : (P : A → Type κ) (xs ys : List A) → All P xs → All P ys → All P (xs ++ ys)
  All-append P [] ys h k = k
  All-append P (x ∷ xs) ys h k = (h.0, All-append P xs ys h.1 k)

module _ {ℓ} {A : Type ℓ} where
  abbrev pub get_or : List A → ℕ → A → A
  get_or [] i d = d
  get_or (x ∷ xs) zero d = x
  get_or (x ∷ xs) (suc i) d = get_or xs i d

  -- A write out of bounds changes nothing.
  abbrev pub set : List A → ℕ → A → List A
  set [] i v = []
  set (x ∷ xs) zero v = v ∷ xs
  set (x ∷ xs) (suc i) v = x ∷ set xs i v

  pub get_or-append :
      (xs ys : List A) (x d : A) (i : ℕ) → i ≡ length xs → get_or (xs ++ x ∷ ys) i d ≡ x
  get_or-append [] ys x d zero h = refl
  get_or-append [] ys x d (suc i) h = absurd (omega arith)
  get_or-append (z ∷ xs) ys x d zero h = absurd (omega arith)
  get_or-append (z ∷ xs) ys x d (suc i) h = get_or-append xs ys x d i (omega arith)

  pub set-append :
      (xs ys : List A) (x v : A) (i : ℕ) → i ≡ length xs → set (xs ++ x ∷ ys) i v ≡ xs ++ v ∷ ys
  set-append [] ys x v zero h = refl
  set-append [] ys x v (suc i) h = absurd (omega arith)
  set-append (z ∷ xs) ys x v zero h = absurd (omega arith)
  set-append (z ∷ xs) ys x v (suc i) h = ap (◌∷◌ z) (set-append xs ys x v i (omega arith))

  -- A list of `suc n` items ends with one.
  pub last_split :
      (n : ℕ) (xs : List A)
      → length xs ≡ suc n
      → (front : List A) × (x : A) × (xs ≡ front ++ x ∷ []) × (length front ≡ n)
  last_split n [] h = absurd (omega arith)
  last_split zero (x ∷ []) h = ([], x, refl, refl)
  last_split zero (x ∷ y ∷ xs) h = absurd (omega arith)
  last_split (suc n) (x ∷ xs) h =
      let (front, z, e, l) = last_split n xs (omega arith) in (x ∷ front, z, ap (◌∷◌ x) e, ap suc l)
