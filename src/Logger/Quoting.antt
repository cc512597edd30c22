-- ===== src/Logger/Quoting.antt =====
-- What stands in the log for a URI: it ends where the log's own quote ends it.
pub mod Entry
use mathlib.Core.List.{append_assoc, append-nil}
use minedive.Common.{
  ℕ, zero, suc, ◌+◌, ◌-◌, ◌*◌, ◌/◌, ◌%◌, ◌^◌, ◌≤◌, ◌<◌, ◌≡◌, ◌≢◌, refl, sym, ap, ◌∙◌, ◌⊎◌, inl, inr,
  Bool, true, false, ◌&&◌, ◌||◌, List, [], ◌∷◌, ◌++◌, Option, none, some, arith, Bytes, bytes, ltb,
  ◌==◌, if◌then◌else◌, length, length-drop, drop, All, All-append, Outcome, done, panic, Bool-cases,
}
use minedive.Logger.{Unicode, lowerhex, hex_byte, hex_digits, escaped, rune, quoted, append_quoted}

-- The documented behaviour of unicode/utf8 and strconv that the log relies on.
pub record IsUnicode (u : Unicode) : Type 0 where
  pub decode_width :
      (b : ℕ) (s : Bytes)
      → (1 ≤ (u.decode_rune (b ∷ s)).1) × ((u.decode_rune (b ∷ s)).1 ≤ length (b ∷ s))
  pub decode_wide : (b : ℕ) (s : Bytes) → 128 ≤ b → 128 ≤ (u.decode_rune (b ∷ s)).0
  pub encode_ascii : (r : ℕ) → r < 128 → u.encode_rune r ≡ r ∷ []
  pub encode_wide : (r : ℕ) → 128 ≤ r → All (λ b. 128 ≤ b) (u.encode_rune r)
  pub print_ascii : (r : ℕ) → r < 128 → u.is_print r ≡ true → 32 ≤ r

-- A reader of a quoted text, up to the first quote with no backslash before it: the text, and what
-- follows the quote.
prepend : Bytes → Option (Bytes × Bytes) → Option (Bytes × Bytes)
prepend p none = none
prepend p (some (t, rest)) = some (p ++ t, rest)

-- `after` is whether the byte before is a backslash that quotes this one.
pub read_quoted : Bool → Bytes → Option (Bytes × Bytes)
unfolding prepend
read_quoted after [] = none
read_quoted true (c ∷ s) = prepend (c ∷ []) (read_quoted false s)
read_quoted false (c ∷ s) =
    let rest = read_quoted (c == b'\\') s in
    if c == b'"' then some ([], s) else prepend (c ∷ []) rest

-- No control character, so no end of line either.
abbrev pub IsText : Bytes → Type 0
IsText s = All (λ b. 32 ≤ b) s

-- The reader goes over all of the piece.
record IsPiece (p : Bytes) : Type 0 where
  is_text : IsText p
  read : (t : Bytes) → read_quoted false (p ++ t) ≡ prepend p (read_quoted false t)

prepend-append :
    (p q : Bytes) (o : Option (Bytes × Bytes)) → prepend p (prepend q o) ≡ prepend (p ++ q) o
unfolding prepend
prepend-append p q none = refl
prepend-append p q (some (t, rest)) = ap (λ (x : Bytes). some (x, rest)) (sym (append_assoc p q t))

nil-IsPiece : IsPiece []
unfolding prepend
nil-IsPiece = record { is_text = tt; read = λ t. by_result (read_quoted false t) }
  where
    by_result : (o : Option (Bytes × Bytes)) → o ≡ prepend [] o
    by_result none = refl
    by_result (some r) = refl

append-IsPiece : (p q : Bytes) → IsPiece p → IsPiece q → IsPiece (p ++ q)
append-IsPiece p q hp hq = record {
  is_text = All-append (λ b. 32 ≤ b) p q hp.is_text hq.is_text;
  read = λ t.
      ap (read_quoted false) (append_assoc p q t)
      ∙ (hp.read (q ++ t)
          ∙ (ap (prepend p) (hq.read t) ∙ prepend-append p q (read_quoted false t)));
}

-- A byte that means itself.
plain-IsPiece : (b : ℕ) → 32 ≤ b → b ≢ b'"' → b ≢ b'\\' → IsPiece (b ∷ [])
unfolding read_quoted
plain-IsPiece b low nq nb = record { is_text = (low, tt); read = λ t. ground arith }

escape-IsPiece : (c : ℕ) → 32 ≤ c → IsPiece (b'\\' ∷ c ∷ [])
unfolding read_quoted
escape-IsPiece c low = record {
  is_text = (omega arith, (low, tt));
  read = λ t. prepend-append (b'\\' ∷ []) (c ∷ []) (read_quoted false t);
}

lowerhex-IsPiece : (n : ℕ) → IsPiece (lowerhex n ∷ [])
unfolding lowerhex
lowerhex-IsPiece n =
    plain-IsPiece (lowerhex n) (ground arith) (λ e. ground arith) (λ e. ground arith)

hex_byte-IsPiece : (b : ℕ) → IsPiece (hex_byte b)
unfolding hex_byte
hex_byte-IsPiece b =
    append-IsPiece _ _ (escape-IsPiece b'x' (omega arith))
      (append-IsPiece _ _ (lowerhex-IsPiece (b / 16)) (lowerhex-IsPiece b))

hex_digits-IsPiece : (n r : ℕ) → IsPiece (hex_digits n r)
unfolding hex_digits
hex_digits-IsPiece zero r = lowerhex-IsPiece r
hex_digits-IsPiece (suc n) r =
    append-IsPiece _ _ (lowerhex-IsPiece (r / 2 ^ (4 * suc n))) (hex_digits-IsPiece n r)

wide-IsPiece : (p : Bytes) → All (λ b. 128 ≤ b) p → IsPiece p
wide-IsPiece [] h = nil-IsPiece
wide-IsPiece (b ∷ p) (low, h) =
    append-IsPiece (b ∷ []) p (plain-IsPiece b (omega arith) (λ e. omega arith) (λ e. omega arith))
      (wide-IsPiece p h)

choice-IsPiece : (c : Bool) (p q : Bytes) → IsPiece p → IsPiece q → IsPiece (if c then p else q)
choice-IsPiece true p q hp hq = hp
choice-IsPiece false p q hp hq = hq

escaped-IsPiece : (b r : ℕ) → IsPiece (escaped b r)
unfolding escaped bytes
escaped-IsPiece b r = choice-IsPiece (r == 7) _ _ (escape-IsPiece b'a' (omega arith)) (
    choice-IsPiece (r == 8) _ _ (escape-IsPiece b'b' (omega arith)) (
      choice-IsPiece (r == 12) _ _ (escape-IsPiece b'f' (omega arith)) (
        choice-IsPiece (r == 10) _ _ (escape-IsPiece b'n' (omega arith)) (
          choice-IsPiece (r == 13) _ _ (escape-IsPiece b'r' (omega arith)) (
            choice-IsPiece (r == 9) _ _ (escape-IsPiece b't' (omega arith)) (
              choice-IsPiece (r == 11) _ _ (escape-IsPiece b'v' (omega arith)) (
                choice-IsPiece (ltb r 32) _ _ (hex_byte-IsPiece b) (
                  choice-IsPiece (ltb 1114111 r) _ _
                    (append-IsPiece _ _ (escape-IsPiece b'u' (omega arith))
                      (hex_digits-IsPiece 3 65533))
                    (choice-IsPiece (ltb r 65536) _ _
                      (append-IsPiece _ _ (escape-IsPiece b'u' (omega arith))
                        (hex_digits-IsPiece 3 r))
                      (append-IsPiece _ _ (escape-IsPiece b'U' (omega arith))
                        (hex_digits-IsPiece 7 r)))))))))))

stops : (p tail : Bytes) → IsPiece p → read_quoted false (p ++ b'"' ∷ tail) ≡ some (p, tail)
unfolding read_quoted prepend
stops p tail h = h.read (b'"' ∷ tail) ∙ ap (λ (x : Bytes). some (x, tail)) (append-nil p)

module _ (u : Unicode) (laws : IsUnicode u) where
  printed-IsPiece : (r : ℕ) → u.is_print r ≡ true → r ≢ b'"' → r ≢ b'\\' → IsPiece (u.encode_rune r)
  printed-IsPiece r shown nq nb = elim (Bool-cases (ltb r 128)) [
    | inl ascii ↦
        rw (laws.encode_ascii r (ground arith))
          (plain-IsPiece r (laws.print_ascii r (ground arith) shown) nq nb)
    | inr wide ↦ wide-IsPiece (u.encode_rune r) (laws.encode_wide r (ground arith))
  ]

  quoted-IsPiece : (b r width : ℕ) → IsPiece (quoted u b r width)
  unfolding quoted
  quoted-IsPiece b r width =
      choice-IsPiece (width == 1 && r == 65533) _ _ (hex_byte-IsPiece b)
        (elim (Bool-cases (r == b'"' || r == b'\\')) [
          | inl special ↦ rw special (escape-IsPiece r (ground arith))
          | inr other ↦ rw other (elim (Bool-cases (u.is_print r)) [
            | inl shown ↦ rw shown (printed-IsPiece r shown (λ e. ground arith) (λ e. ground arith))
            | inr hidden ↦ rw hidden (escaped-IsPiece b r)
          ])
        ])

  rune_width : (b : ℕ) (s : Bytes) → (1 ≤ (rune u b s).1) × ((rune u b s).1 ≤ length (b ∷ s))
  unfolding rune
  rune_width b s = ground (arith, laws.decode_width b s)

  append_quoted-IsPiece :
      (fuel : ℕ) (buf s : Bytes)
      → length s ≤ fuel
      → (out : Bytes) × (append_quoted u fuel buf s ≡ some (done (buf ++ out))) × IsPiece out
  unfolding append_quoted
  append_quoted-IsPiece fuel buf [] enough =
      ([], ap (λ (x : Bytes). some (done x)) (sym (append-nil buf)), nil-IsPiece)
  append_quoted-IsPiece zero buf (b ∷ s) enough = absurd (omega arith)
  append_quoted-IsPiece (suc fuel) buf (b ∷ s) enough =
      let width = (rune u b s).1 in
      let piece = quoted u b (rune u b s).0 width in
      let fits : ltb (length (b ∷ s)) width ≡ false = ground (arith, rune_width b s) in
      let (out, e, h) =
        append_quoted-IsPiece fuel (buf ++ piece) (drop width (b ∷ s))
          (omega (arith, rune_width b s, length-drop width (b ∷ s), enough)) in
      (
        piece ++ out,
        rw (fits, append_quoted)
            (e ∙ ap (λ (x : Bytes). some (done x)) (append_assoc buf piece out)),
        append-IsPiece piece out (quoted-IsPiece b (rune u b s).0 width) h,
      )

  -- `appendQuoted` comes to an end for every text, and leaves what was in the buffer. What it
  -- appends has no control character, and a reader that takes a backslash and the byte after it as
  -- one stops at the first quote that the log itself writes after it.
  pub append_quoted_total :
      (buf s : Bytes)
      → (out : Bytes) × (append_quoted u (length s) buf s ≡ some (done (buf ++ out)))
        × IsText out
        × ((tail : Bytes) → read_quoted false (out ++ b'"' ∷ tail) ≡ some (out, tail))
  append_quoted_total buf s =
      let (out, e, h) = append_quoted-IsPiece (length s) buf s (omega arith) in
      (out, e, h.is_text, λ tail. stops out tail h)
