-- ===== src/Server/Registry.antt =====
-- server.go: the maps `exits` and `guards`. The order in which a `range` visits a map and the
-- number that `rand.Intn` draws are arguments.
pub mod Choice
pub mod Rotation
use minedive.Common.{
  ℕ, ◌+◌, List, [], ◌∷◌, Option, none, some, Bytes, ◌&&◌, not, ltb, leb, ◌==◌, if◌then◌else◌, Dict,
  has, lookup, insert, erase, length, set, replicate, Outcome, done, panic,
}
use minedive.Server.State.{MinediveServer}

unfoldable pub add_exit : ℕ → MinediveServer → MinediveServer
add_exit cli s = record s { exits = insert (s.heap cli).name cli s.exits }

unfoldable pub del_exit : Bytes → MinediveServer → MinediveServer
del_exit cli_name s = record s { exits = erase cli_name s.exits }

unfoldable pub add_guard : ℕ → MinediveServer → MinediveServer
add_guard cli s = record s { guards = insert (s.heap cli).name cli s.guards }

unfoldable pub del_guard : Bytes → MinediveServer → MinediveServer
del_guard cli_name s = record s { guards = erase cli_name s.guards }

-- The first loop of `GetExit` and of `GetGuard`: the first name past `skip` that is not avoided.
pick_past : List Bytes → ℕ → ℕ → List Bytes → Option Bytes
pick_past avoid skip i [] = none
pick_past avoid skip i (cn ∷ order) =
    let rest = pick_past avoid skip (i + 1) order in
    if ltb skip i && not (has avoid cn) then some cn else rest

-- The second loop: the first name up to `skip` that is not avoided.
pick_upto : List Bytes → ℕ → ℕ → List Bytes → Option Bytes
pick_upto avoid skip i [] = none
pick_upto avoid skip i (cn ∷ order) =
    let rest = pick_upto avoid skip (i + 1) order in
    if leb i skip && not (has avoid cn) then some cn else rest

-- What the two loops leave in `cli`: the entry of the picked name, if any.
entry_of : Dict ℕ → Option Bytes → Option Bytes → Option ℕ
entry_of nodes (some cn) later = lookup cn nodes
entry_of nodes none (some cn) = lookup cn nodes
entry_of nodes none none = none

-- What a draw needs: `rand.Intn` and the orders of the two `range` loops.
pub record Draw : Type 0 where
  pub skip : ℕ
  pub first : List Bytes
  pub second : List Bytes

-- The body that `GetExit` and `GetGuard` share but for the map. `rand.Intn` panics on an empty
-- map, with the read lock held. `none` is the error "no exits available".
choose : Dict ℕ → List Bytes → Draw → Outcome (Option ℕ)
unfolding pick_past pick_upto entry_of
choose nodes avoid d =
    if length nodes == 0
    then panic
    else done
        (entry_of nodes (pick_past avoid d.skip 0 d.first) (pick_upto avoid d.skip 0 d.second))

unfoldable pub get_exit : MinediveServer → List Bytes → Draw → Outcome (Option ℕ)
unfolding choose
get_exit s avoid d = choose s.exits avoid d

unfoldable pub get_guard : MinediveServer → List Bytes → Draw → Outcome (Option ℕ)
unfolding choose
get_guard s avoid d = choose s.guards avoid d

-- The loop of `GetExits` and of `GetGuards`: `o[i] = k; i++` over a slice of the map's length.
fill_names : List Bytes → ℕ → List Bytes → List Bytes
fill_names o i [] = o
fill_names o i (k ∷ order) = fill_names (set o i k) (i + 1) order

unfoldable pub get_exits : MinediveServer → List Bytes → List Bytes
unfolding fill_names
get_exits s order = fill_names (replicate (length s.exits) []) 0 order

unfoldable pub get_guards : MinediveServer → List Bytes → List Bytes
unfolding fill_names
get_guards s order = fill_names (replicate (length s.guards) []) 0 order
