-- ===== src/Nonce/Counter.antt =====
-- `IncNonce` counts: the last `dyn` bytes are a big-endian number, and the call adds one to it.
use mathlib.Core.List.{append_assoc, append-nil}
use native.Mathlib.Nat.{pow-suc}
use minedive.Common.{
  ℕ, zero, suc, ◌+◌, ◌-◌, ◌*◌, ◌^◌, ◌<◌, ◌≡◌, refl, ap, ◌∙◌, Bool, true, false, not, ◌⊎◌, inl, inr,
  [], ◌∷◌, ◌++◌, arith, Bytes, ltb, if◌then◌else◌, length, get_or, set, get_or-append, set-append,
  last_split, length-append, All, Bool-cases,
}
use minedive.Nonce.{inc_loop, inc_nonce}

-- The number that the bytes spell, the first byte the highest.
abbrev pub value : Bytes → ℕ
value [] = 0
value (b ∷ s) = b * 256 ^ length s + value s

-- All are bytes.
abbrev pub IsBytes : Bytes → Type 0
IsBytes s = All (λ b. b < 256) s

carry_in : ℕ → Bytes × Bool → Bytes × Bool
carry_in b (s, false) = (b ∷ s, false)
carry_in b (s, true) = if ltb b 0xff then ((b + 1) ∷ s, false) else (0 ∷ s, true)

-- Adding one from the last byte on, with the carry out.
incr : Bytes → Bytes × Bool
incr [] = ([], true)
incr (b ∷ s) = carry_in b (incr s)

incr-concat :
    (s : Bytes) (b : ℕ)
    → incr (s ++ b ∷ [])
      ≡ (if ltb b 0xff then (s ++ (b + 1) ∷ [], false) else ((incr s).0 ++ 0 ∷ [], (incr s).1))
unfolding incr carry_in
incr-concat [] b = ground arith
incr-concat (c ∷ s) b = rw (incr-concat s b) (elim (Bool-cases (ltb b 0xff)) [
  | inl low ↦ rw low refl
  | inr full ↦ rw full (full_case (incr s))
])
  where
    full_case :
        (r : Bytes × Bool)
        → carry_in c (r.0 ++ 0 ∷ [], r.1) ≡ ((carry_in c r).0 ++ 0 ∷ [], (carry_in c r).1)
    full_case (t, false) = refl
    full_case (t, true) = ground arith

-- The loop over the bytes `xs`, with `ps` before them and the bytes `ys` that are done behind.
inc_loop-incr :
    (rounds i l : ℕ) (ps xs ys a : Bytes)
    → length xs ≡ rounds
    → i ≡ suc (length ys)
    → l ≡ length ps + (length xs + length ys)
    → a ≡ ps ++ (xs ++ ys)
    → inc_loop rounds i l a ≡ (ps ++ ((incr xs).0 ++ ys), not (incr xs).1)
unfolding inc_loop incr
inc_loop-incr zero i l ps [] ys a hx hi hl ha = rw ha refl
inc_loop-incr zero i l ps (x ∷ xs) ys a hx hi hl ha = absurd (omega arith)
inc_loop-incr (suc rounds) i l ps xs ys a hx hi hl ha =
    let (front, d, split, size) = last_split rounds xs hx in
    let here : a ≡ (ps ++ front) ++ d ∷ ys =
      ha ∙ ap (λ t. ps ++ (t ++ ys)) split ∙ simp append_assoc in
    let place : l - i ≡ length (ps ++ front) =
      omega (arith, length-append ps front, length-append front (d ∷ []), ap length split) in
    let read : get_or a (l - i) 0 ≡ d =
      ap (λ t. get_or t (l - i) 0) here ∙ get_or-append (ps ++ front) ys d 0 (l - i) place in
    let write : (v : ℕ) → set a (l - i) v ≡ (ps ++ front) ++ v ∷ ys =
      λ v. ap (λ t. set t (l - i) v) here ∙ set-append (ps ++ front) ys d v (l - i) place in
    let next =
      inc_loop-incr rounds (i + 1) l ps front (0 ∷ ys) (set a (l - i) 0) size (omega arith)
        (omega (arith, ap length split, length-append front (d ∷ [])))
        (write 0 ∙ append_assoc ps front (0 ∷ ys)) in
    rw (next, read, split, incr-concat front d, write (d + 1))
      (elim (Bool-cases (ltb d 0xff)) [
        | inl low ↦ rw low (simp append_assoc)
        | inr full ↦ rw full (simp append_assoc)
      ])

-- What one step of the counter does to a number of `n` bytes.
abbrev pub Counts : Bytes → Bytes × Bool → Type 0
Counts s (t, good) =
    (length t ≡ length s)
    × IsBytes t
    × (((good ≡ true) × (value t ≡ value s + 1))
        ⊎ ((good ≡ false) × (value s + 1 ≡ 256 ^ length s) × (value t ≡ 0)))

carry_in-Counts :
    (b : ℕ) (s : Bytes) (r : Bytes × Bool)
    → b < 256
    → Counts s (r.0, not r.1)
    → Counts (b ∷ s) ((carry_in b r).0, not (carry_in b r).1)
unfolding carry_in
carry_in-Counts b s (t, false) hb (size, all, inl (_, e)) =
    (ap suc size, (hb, all), inl (refl, rw size (omega (arith, e))))
carry_in-Counts b s (t, false) hb (size, all, inr (no_good, _, _)) = cc
carry_in-Counts b s (t, true) hb (size, all, inl (no_good, _)) = cc
carry_in-Counts b s (t, true) hb (size, all, inr (_, full, zeros)) =
    elim (Bool-cases (ltb b 0xff)) [
      | inl low ↦
          rw low
            (ap suc size, (ground arith, all), inl (refl, rw size (omega (arith, zeros, full))))
      | inr high ↦ rw high (
        ap suc size,
        (omega arith, all),
        inr (refl, full_case (ground arith), omega (arith, zeros)),
      )
    ]
  where
    full_case : b ≡ 255 → b * 256 ^ length s + value s + 1 ≡ 256 ^ suc (length s)
    full_case e = rw (e, pow-suc 256 (length s)) (omega (arith, full))

incr-Counts : (s : Bytes) → IsBytes s → Counts s ((incr s).0, not (incr s).1)
unfolding incr
incr-Counts [] h = (refl, tt, inr (refl, refl, refl))
incr-Counts (b ∷ s) (hb, hs) = carry_in-Counts b s (incr s) hb (incr-Counts s hs)

-- Of a slice with `dyn` bytes behind `ps`, `IncNonce` leaves `ps` as it is, and adds one to the
-- number that the others spell; a `dyn` beyond the length counts as the length. It fails exactly
-- when the number is the last one, and then leaves zero.
pub inc_nonce-Counts :
    (ps xs : Bytes) (dyn : ℕ)
    → IsBytes xs
    → (dyn ≡ length xs) ⊎ ((ps ≡ []) × (length xs < dyn))
    → (r : Bytes × Bool) × (inc_nonce (ps ++ xs) dyn ≡ (ps ++ r.0, r.1)) × Counts xs r
unfolding inc_nonce
inc_nonce-Counts ps xs dyn h size = (
  ((incr xs).0, not (incr xs).1),
  rw
      (
        rounds,
        inc_loop-incr (length xs) 1 (length (ps ++ xs)) ps xs [] (ps ++ xs) refl refl
            (omega (arith, length-append ps xs)) (simp append-nil),
      )
      (simp append-nil),
  incr-Counts xs h,
)
  where
    rounds : (if ltb (length (ps ++ xs)) dyn then length (ps ++ xs) else dyn) ≡ length xs
    rounds = elim size [
      | inl e ↦ ground (arith, length-append ps xs)
      | inr (e, more) ↦ ground (arith, length-append ps xs, ap length e)
    ]
