-- ===== src/Redis.antt =====
-- What the server programs take from redis, which is not in the repository: its commands on a state
-- `R` of the database.
use minedive.Common.{ℕ, ◌≤◌, ◌≡◌, false, List, [], ◌∷◌, Bytes, length, has}

-- `SAdd`, `Set` with an expiry in hours, `Get` (the empty text where there is no key),
-- `SRandMemberN` (its first argument is the chance of one call), and `LPush`.
pub record Redis (R : Type 0) : Type 0 where
  pub s_add : Bytes → Bytes → R → R
  pub set_for : Bytes → Bytes → ℕ → R → R
  pub get : Bytes → R → Bytes
  pub s_rand_member_n : ℕ → Bytes → ℕ → R → List Bytes
  pub l_push : Bytes → Bytes → R → R

-- No text stands twice.
abbrev pub Distinct : List Bytes → Type 0
Distinct [] = Unit
Distinct (x ∷ xs) = (has xs x ≡ false) × Distinct xs

-- For a count that is not negative, SRANDMEMBER gives distinct members, at most that many.
pub record IsRedis {R : Type 0} (r : Redis R) : Type 0 where
  pub members_distinct :
      (chance : ℕ) (key : Bytes) (n : ℕ) (db : R) → Distinct (r.s_rand_member_n chance key n db)
  pub members_bounded :
      (chance : ℕ) (key : Bytes) (n : ℕ) (db : R) → length (r.s_rand_member_n chance key n db) ≤ n

-- "K_" before the name of a client.
abbrev pub key_name : Bytes → Bytes
key_name name = b'K' ∷ b'_' ∷ name
