-- ===== src/Codec/Slices.antt =====
-- Keys and nonces come back from base64 whole.
use mathlib.Core.List.{append-nil, append_assoc}
use minedive.Common.{
  ℕ, zero, suc, ◌≡◌, refl, sym, ap, ◌∙◌, [], ◌∷◌, some, arith, Bytes, length, take, drop, replicate,
  length-append, length-replicate, take-append_left, drop-append_left, ◌++◌,
}
use minedive.Codec.{Codec, IsCodec, Decoded, slice_to, slice_from, copy}

drop_all : (n : ℕ) (s : Bytes) → length s ≡ n → drop n s ≡ []
drop_all zero [] h = refl
drop_all zero (b ∷ s) h = absurd (omega arith)
drop_all (suc n) [] h = absurd (omega arith)
drop_all (suc n) (b ∷ s) h = drop_all n s (omega arith)

pub copy_full : (n : ℕ) (s : Bytes) → length s ≡ n → copy (replicate n 0) s ≡ s
unfolding copy
copy_full n s h =
    rw (length-replicate {A = ℕ} n 0, h, drop_all n (replicate n 0) (length-replicate {A = ℕ} n 0))
      (append-nil (take n s) ∙ (ap (take n) (sym (append-nil s)) ∙ take-append_left n s [] h))

pub copy_over : (dst s : Bytes) → length s ≡ length dst → copy dst s ≡ s
unfolding copy
copy_over dst s h =
    rw (sym h, drop_all (length s) dst (sym h))
      (append-nil (take (length s) s)
        ∙ (ap (take (length s)) (sym (append-nil s)) ∙ take-append_left (length s) s [] refl))

pub slice_to_full :
    (n : ℕ) (d : Decoded) (s : Bytes) → d.slice ≡ s → length s ≡ n → slice_to n d ≡ some s
unfolding slice_to
slice_to_full n d s e h =
    rw (e, take-append_left n s d.spare h) (ground (arith, length-append s d.spare))

module _ (c : Codec) (laws : IsCodec c) where
  pub slice_to-decode-encode :
      (n : ℕ) (s : Bytes) → length s ≡ n → slice_to n (c.decode (c.encode s)) ≡ some s
  slice_to-decode-encode n s h = slice_to_full n _ s (laws.decode-encode s).0 h

-- The slices before and after a prefix of the length.
pub slice_to_prefix :
    (n : ℕ) (d : Decoded) (s rest : Bytes)
    → d.slice ≡ s ++ rest
    → length s ≡ n
    → slice_to n d ≡ some s
unfolding slice_to
slice_to_prefix n d s rest e h =
    rw (e, append_assoc s rest d.spare, take-append_left n s (rest ++ d.spare) h)
      (ground (arith, length-append s (rest ++ d.spare)))

pub slice_from_prefix :
    (n : ℕ) (d : Decoded) (s rest : Bytes)
    → d.slice ≡ s ++ rest
    → length s ≡ n
    → slice_from n d ≡ some rest
unfolding slice_from
slice_from_prefix n d s rest e h =
    rw (e, drop-append_left n s rest h) (ground (arith, length-append s rest))
