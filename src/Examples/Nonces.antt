-- ===== src/Examples/Nonces.antt =====
-- util.go at concrete slices.
use minedive.Common.{◌≡◌, refl, Bool, true, false, [], ◌∷◌, ◌++◌, inl, arith, Bytes}
use minedive.Nonce.{inc_nonce}
use minedive.Nonce.Counter.{Counts, inc_nonce-Counts}

-- 0x07 ff ff, of which two bytes count.
abbrev full_tail : Bytes
full_tail = 255 ∷ 255 ∷ []

inc_nonce_expires : inc_nonce (7 ∷ 255 ∷ 255 ∷ []) 2 ≡ (7 ∷ 0 ∷ 0 ∷ [], false)
unfolding inc_nonce
inc_nonce_expires = refl

inc_nonce_carries : inc_nonce (7 ∷ 255 ∷ 255 ∷ []) 9 ≡ (8 ∷ 0 ∷ 0 ∷ [], true)
unfolding inc_nonce
inc_nonce_carries = refl

inc_nonce-Counts_example :
    (r : Bytes × Bool) × (inc_nonce ((7 ∷ []) ++ full_tail) 2 ≡ ((7 ∷ []) ++ r.0, r.1))
    × Counts full_tail r
inc_nonce-Counts_example = inc_nonce-Counts (7 ∷ []) full_tail 2 (omega arith) (inl refl)
