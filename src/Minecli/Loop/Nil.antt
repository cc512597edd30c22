-- ===== src/Minecli/Loop/Nil.antt =====
-- Which lines make minecli panic while it has no client.
use minedive.Common.{
  ◌≡◌, Bool, false, not, List, [], ◌∷◌, Option, none, some, inl, inr, Bytes, ◌is◌, Option-cases,
}
use minedive.Protocol.{Cell}
use minedive.Client.Circuits.Building.{new_circuit}
use minedive.Minecli.Line.{
  Command, err, avoid, init, search, verbose, silence, join, wsping, cmd, getk, getspd, wsraw,
  circuit, testcirc, testcirc2, searchv2, raw, list, getpeers, quit, other,
}
use minedive.Minecli.Loop.{
  World, run_command, run_avoid, run_search, set_verbose, command, with_client, run_cmd, run_getk,
  run_wsraw, write_cell, run_circuit, send_on, run_searchv2, run_raw,
}
use minedive.Minecli.Loop.Table.{
  dials, lacks_word, is_some, needs_client, stops, cli_of, Matches, both_stop, both_go_on,
  tested-Matches, needed-Matches, unnamed-Matches,
}

-- There is no client.
pub run_command_nil-Matches :
    (w : World) (v : Bool) (avoided : List Bytes) (k : Command) (words : List Bytes)
    → dials k ≡ false
    → Matches (run_command w (cli_of none v avoided) k words) (stops w none k words)
unfolding dials stops lacks_word needs_client run_command run_avoid run_search set_verbose command
    with_client run_cmd run_getk run_wsraw run_circuit new_circuit send_on run_searchv2 run_raw
    is_some
run_command_nil-Matches w v avoided err words h = both_go_on _
run_command_nil-Matches w v avoided avoid [] h = both_stop
run_command_nil-Matches w v avoided avoid (a ∷ words) h = both_go_on _
run_command_nil-Matches w v avoided init words h = absurd cc
run_command_nil-Matches w v avoided search words h = both_go_on _
run_command_nil-Matches w v avoided verbose words h = both_go_on _
run_command_nil-Matches w v avoided silence words h = both_go_on _
run_command_nil-Matches w v avoided join words h = absurd cc
run_command_nil-Matches w v avoided wsping words h = both_stop
run_command_nil-Matches w v avoided cmd [] h = both_stop
run_command_nil-Matches w v avoided cmd (t ∷ words) h = needed-Matches (t is []) _
run_command_nil-Matches w v avoided getk [] h = both_stop
run_command_nil-Matches w v avoided getk (n ∷ words) h = needed-Matches (n is []) _
run_command_nil-Matches w v avoided getspd words h = absurd cc
run_command_nil-Matches w v avoided wsraw [] h = both_stop
run_command_nil-Matches w v avoided wsraw (t ∷ words) h =
    tested-Matches (t is []) _ _ _ (by_cell (w.read_cell t))
  where
    by_cell :
        (cell : Option Cell) → Matches (write_cell (cli_of none v avoided) cell) (is_some cell)
    by_cell none = both_go_on _
    by_cell (some cell) = both_stop
run_command_nil-Matches w v avoided circuit [] h = both_go_on _
run_command_nil-Matches w v avoided circuit (a ∷ []) h = both_go_on _
run_command_nil-Matches w v avoided circuit (a ∷ b ∷ []) h = both_go_on _
run_command_nil-Matches w v avoided circuit (a ∷ b ∷ e ∷ []) h =
    elim (Option-cases w.creation.circuit_keys) [
      | inl none_made ↦ rw (none_made, new_circuit) (both_go_on _)
      | inr (keys, made) ↦ rw (made, new_circuit) both_stop
    ]
run_command_nil-Matches w v avoided circuit (a ∷ b ∷ e ∷ d ∷ words) h = both_go_on _
run_command_nil-Matches w v avoided testcirc words h = absurd cc
run_command_nil-Matches w v avoided testcirc2 words h = both_stop
run_command_nil-Matches w v avoided searchv2 [] h = both_go_on _
run_command_nil-Matches w v avoided searchv2 (q ∷ []) h = both_stop
run_command_nil-Matches w v avoided searchv2 (q ∷ l ∷ words) h = both_go_on _
run_command_nil-Matches w v avoided raw [] h = both_stop
run_command_nil-Matches w v avoided raw (n ∷ []) h = unnamed-Matches (n is []) _
run_command_nil-Matches w v avoided raw (n ∷ m ∷ words) h =
    tested-Matches (n is []) (not (m is [])) _ _ (needed-Matches (m is []) _)
run_command_nil-Matches w v avoided list words h = both_go_on _
run_command_nil-Matches w v avoided getpeers words h = both_stop
run_command_nil-Matches w v avoided quit words h = both_go_on _
run_command_nil-Matches w v avoided other words h = both_go_on _
