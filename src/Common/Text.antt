-- ===== src/Common/Text.antt =====
-- A Go string or byte slice is the list of its bytes, so `string(b)` and `[]byte(s)` are the
-- identity. `bytes` gives a literal of the source, `is` is the comparison `==` of strings.
use Prim.Native.Nat.{ℕ}
use Prim.Native.Char.{code}
use Prim.Native.String.{String}
use mathlib.Core.Path.{◌≡◌, refl}
use mathlib.Core.Logic.{◌↔◌, ◌≢◌}
use mathlib.Core.Bool.{Bool, true, false, ◌&&◌}
use mathlib.Core.List.{List, [], ◌∷◌, ◌++◌}
use native.Mathlib.Omega.{arith}
use minedive.Common.Tests.{◌==◌ as nat_eq, if◌then◌else◌}
use minedive.Common.Lists.{All}

abbrev pub Bytes : Type 0
Bytes = List ℕ

unfoldable pub bytes : String → Bytes
bytes String.[] = []
bytes (String.◌∷◌ c s) = code c ∷ bytes s

infix 50 ◌is◌
unfoldable pub ◌is◌ : Bytes → Bytes → Bool
[] is [] = true
[] is (b ∷ t) = false
(a ∷ s) is [] = false
(a ∷ s) is (b ∷ t) = nat_eq a b && (s is t)

pub is_eq : (s t : Bytes) → (s is t) ≡ true → s ≡ t
unfolding ◌is◌
is_eq [] [] h = refl
is_eq [] (b ∷ t) h = cc
is_eq (a ∷ s) [] h = cc
is_eq (a ∷ s) (b ∷ t) h = ground (arith, is_eq s t)

pub is_refl : (s : Bytes) → (s is s) ≡ true
unfolding ◌is◌
is_refl [] = refl
is_refl (a ∷ s) = ground (arith, is_refl s)

pub is_iff : (s t : Bytes) → ((s is t) ≡ true) ↔ (s ≡ t)
is_iff s t = (is_eq s t, λ e. ground (arith, is_refl s))

-- `strings.Split(s, sep)` for a separator of one byte.
push_head : ℕ → List Bytes → List Bytes
push_head b [] = (b ∷ []) ∷ []
push_head b (s ∷ ss) = (b ∷ s) ∷ ss

unfoldable pub split : ℕ → Bytes → List Bytes
unfolding push_head
split sep [] = [] ∷ []
split sep (b ∷ s) = let rest = split sep s in if nat_eq b sep then [] ∷ rest else push_head b rest

-- The byte does not occur in the text.
abbrev pub Lacks : ℕ → Bytes → Type 0
Lacks sep s = All (λ b. b ≢ sep) s

pub split_of_Lacks : (sep : ℕ) (s : Bytes) → Lacks sep s → split sep s ≡ s ∷ []
unfolding split
split_of_Lacks sep [] h = refl
split_of_Lacks sep (b ∷ s) (hb, hs) = ground (arith, split_of_Lacks sep s hs)

pub split-append :
    (sep : ℕ) (s t : Bytes) → Lacks sep s → split sep (s ++ sep ∷ t) ≡ s ∷ split sep t
unfolding split
split-append sep [] t h = ground arith
split-append sep (b ∷ s) t (hb, hs) = ground (arith, split-append sep s t hs)
