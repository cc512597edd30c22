-- ===== src/Examples/Waits.antt =====
-- A wait of NewCircuit at concrete reads.
use minedive.Common.{
  ◌+◌, ◌*◌, ◌≤◌, Bool, ℕ, ◌<◌, ◌≡◌, ◌≢◌, ◌⊎◌, true, false, [], some, Bytes, bytes, if◌then◌else◌,
  ltb, List, ◌∷◌, panic,
}
use minedive.Client.Circuits.FromPeers.{build_circuit_z, build_circuit_z_panics}
use minedive.Examples.Nodes.{node_of}
use minedive.Client.Circuits.Building.{wait_id}
use minedive.Client.Circuits.Building.Confirming.{Trial, first_trial, wait_test, wait_test_total}
use minedive.Client.Circuits.Building.Waiting.{wait_id_total}

-- The name comes after five seconds.
abbrev late : ℕ → Bytes
late i = if ltb i 5 then [] else bytes "e"

wait_id_total_example :
    ((i : ℕ) × (wait_id 12 0 late ≡ some true) × (i < 12) × (late i ≢ []))
    ⊎ ((wait_id 12 0 late ≡ some false) × ((i : ℕ) → i < 12 → late i ≡ []))
wait_id_total_example = wait_id_total late

-- The circuit is found to work at the eighth read.
abbrev works : ℕ → Bool
works i = ltb 6 i

wait_test_total_example :
    ((t : Trial) × (wait_test 36 works first_trial ≡ some (true, t))
      × (works t.reads ≡ true)
      × (t.reads < 36)
      × (6 * t.sends ≤ t.reads + 6)
      × (t.reads < 6 * t.sends)
      × ((i : ℕ) → i < t.reads → works i ≡ false))
    ⊎ ((t : Trial) × (wait_test 36 works first_trial ≡ some (false, t))
        × (t.sends ≡ 6)
        × ((i : ℕ) → i < 36 → works i ≡ false))
wait_test_total_example = wait_test_total works

abbrev peers : List Bytes
peers = bytes "b" ∷ bytes "e" ∷ []

build_circuit_z_panics_example :
    build_circuit_z 31 (node_of 1) (λ tries. peers) peers peers ≡ some panic
build_circuit_z_panics_example = build_circuit_z_panics (node_of 1) (λ tries. peers) peers peers
