-- ===== src/Restmined.antt =====
-- cmd/restmined/main.go, which lists the exits and guards of redis over HTTP.
use minedive.Common.{ℕ, List, [], ◌∷◌, ◌++◌, Bytes, bytes}
use minedive.Redis.{Redis}

-- `RESPONSE_LIMIT`
abbrev pub response_limit : ℕ
response_limit = 100

-- `strings.Join(l, "\n")`
pub join_lines : List Bytes → Bytes
join_lines [] = []
join_lines (s ∷ []) = s
join_lines (s ∷ t ∷ l) = s ++ b'\n' ∷ join_lines (t ∷ l)

module _ {R : Type 0} (redis : Redis R) where
  -- The bodies that `restExit` and `restGuard` write; the first argument is the chance of redis.
  unfoldable pub rest_exit : ℕ → R → Bytes
  unfolding join_lines
  rest_exit chance db = join_lines (redis.s_rand_member_n chance (bytes "EXITS") response_limit db)

  unfoldable pub rest_guard : ℕ → R → Bytes
  unfolding join_lines
  rest_guard chance db =
      join_lines (redis.s_rand_member_n chance (bytes "GUARDS") response_limit db)
