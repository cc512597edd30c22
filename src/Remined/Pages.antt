-- ===== src/Remined/Pages.antt =====
-- cmd/remined/main.go: the pages of remined, and the choice of its data source.
use minedive.Common.{
  ℕ, ◌≡◌, refl, Bool, false, ◌&&◌, List, [], ◌∷◌, Bytes, bytes, drop, ◌is◌, ◌==◌, if◌then◌else◌,
  Outcome, done, panic, ◌>>=◌,
}
use minedive.Server.State.{MinediveServer}
use minedive.Server.Registry.{get_exits, get_guards}
use minedive.Restmined.{join_lines}

-- The bodies that `restExit` and `restGuard` write; the second argument is the order of the
-- `range`.
rest_exit : MinediveServer → List Bytes → Bytes
rest_exit s order = join_lines (get_exits s order)

rest_guard : MinediveServer → List Bytes → Bytes
rest_guard s order = join_lines (get_guards s order)

-- The loop of `IPHandler`, over what `SMembers` gives: the hosts. An empty member panics at `v[0]`.
hosts : List Bytes → Outcome (List Bytes)
hosts [] = done []
hosts ([] ∷ val) = panic
hosts ((b ∷ v) ∷ val) = do rest ← hosts val; done (if b == b'H' then v ∷ rest else rest)

-- `strings.Split(s, "://")`. Where the separator begins, the first of the later words begins with
-- the rest of it.
split_scheme : Bytes → List Bytes
split_scheme [] = [] ∷ []
split_scheme (b ∷ s) =
    let rest = split_scheme s in if starts (b ∷ s) then [] ∷ unslashed rest else onto b rest
  where
    starts : Bytes → Bool
    starts (x ∷ y ∷ z ∷ more) = x == b':' && (y == b'/' && z == b'/')
    starts _ = false

    unslashed : List Bytes → List Bytes
    unslashed [] = []
    unslashed (w ∷ ws) = drop 2 w ∷ ws

    onto : ℕ → List Bytes → List Bytes
    onto c [] = (c ∷ []) ∷ []
    onto c (w ∷ ws) = (c ∷ w) ∷ ws

-- The address of redis. A source with another scheme ends the program by `log.Fatalf`, one with no
-- address by the index of `dsn[1]`: both are `panic`.
redis_address : Bytes → Outcome Bytes
unfolding split_scheme
redis_address source = address (split_scheme source)
  where
    address : List Bytes → Outcome Bytes
    address (scheme ∷ addr ∷ rest) = if scheme is bytes "redis" then done addr else panic
    address _ = panic

redis_address_default :
    redis_address (bytes "redis://127.0.0.1:6379") ≡ done (bytes "127.0.0.1:6379")
unfolding redis_address bytes ◌is◌
redis_address_default = refl
