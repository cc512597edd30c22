-- ===== src/Nonce.antt =====
-- util.go: `IncNonce` and `UseNonce`. The slice `a` is the list of its bytes, and both return the
-- slice as they leave it. A nil error is `true`.
pub mod Counter
use minedive.Common.{
  ℕ, zero, suc, ◌+◌, ◌-◌, Bool, true, false, ◌∷◌, Bytes, ltb, if◌then◌else◌, length, get_or, set,
}

-- The loop `for i := 1; i <= dyn; i++` with `rounds` rounds left; `l` is `len(a)`.
inc_loop : ℕ → ℕ → ℕ → Bytes → Bytes × Bool
inc_loop zero i l a = (a, false)
inc_loop (suc rounds) i l a =
    let rest = inc_loop rounds (i + 1) l (set a (l - i) 0) in
    let byte = get_or a (l - i) 0 in
    if ltb byte 0xff then (set a (l - i) (byte + 1), true) else rest

unfoldable pub inc_nonce : Bytes → ℕ → Bytes × Bool
unfolding inc_loop
inc_nonce a dyn = let l = length a in inc_loop (if ltb l dyn then l else dyn) 1 l a

-- `encode` is `b64.StdEncoding.EncodeToString`. The results are the slice, the text and the error.
unfoldable pub use_nonce : (Bytes → Bytes) → Bytes → Bytes × Bytes × Bool
use_nonce encode a = let (a', good) = inc_nonce a (length a) in (a', encode a', good)
