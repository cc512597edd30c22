-- ===== src/States.antt =====
-- circuitstate.go, minedivestate.go, errors.go: the states that have names, and `stateHandler` of
-- client.go. A state is its number.
use minedive.Common.{ℕ, List, [], ◌∷◌, Bytes, bytes, ◌==◌, if◌then◌else◌}

abbrev err_unknown_type : Bytes
err_unknown_type = bytes "unknown"

abbrev circuit_state_new : ℕ
circuit_state_new = 1

abbrev circuit_state_keys : ℕ
circuit_state_keys = 2

-- `CircuitState.String`
circuit_state_string : ℕ → Bytes
circuit_state_string t =
    if t == circuit_state_new
    then bytes "new"
    else if t == circuit_state_keys
    then bytes "got all keys"
    else err_unknown_type

abbrev minedive_state_new : ℕ
minedive_state_new = 1

abbrev minedive_state_connecting : ℕ
minedive_state_connecting = 2

-- `MinediveState.String`
unfoldable pub minedive_state_string : ℕ → Bytes
minedive_state_string t =
    if t == minedive_state_new
    then bytes "new"
    else if t == minedive_state_connecting
    then bytes "connecting"
    else err_unknown_type

-- `stateHandler`, on the states that it reads.
state_handler : List ℕ → ℕ → ℕ
state_handler [] state = state
state_handler (n ∷ ns) state = state_handler ns n
