-- ===== src/Examples/Choices.antt =====
-- Node 9 builds a circuit over the server of Servers.
use minedive.Common.{
  ℕ, ◌≡◌, refl, [], ◌∷◌, some, arith, bytes, ◌is◌, is_iff, true, false, lookup, has, split, done,
  replicate,
}
use minedive.Protocol.{Cell}
use minedive.Server.Registry.{get_exit, get_guard}
use minedive.Client.State.{Client, send_cell, dial_peer}
use minedive.Client.Circuits.Building.{start_circuit, request_guard, request_bridge}
use minedive.Client.Rendezvous.{ws_step}
use minedive.Mined.{minedive_dispatch, make_avoid_map}
use minedive.Mined.Circuits.Choosing.{
  HasNames, IsChosen, ask_exit, ask_guard, ask_bridge, start_circuit-IsChosen,
}
use minedive.Examples.Introductions.{env as node_env}
use minedive.Examples.Nodes.{node_of}
use minedive.Examples.Packages.{plain_codec}
use minedive.Examples.Servers.{name_of, server, server-IsKeyed, env}

server-HasNames : HasNames server
unfolding lookup
server-HasNames = record {
  exits = λ cn p e. ground (arith, is_iff (name_of 1) cn, is_iff (name_of 2) cn);
  guards =
      λ cn p e. ground (arith, is_iff (name_of 1) cn, is_iff (name_of 2) cn, is_iff (name_of 3) cn);
}

abbrev exit_reply : Cell
exit_reply = record ask_exit { type = bytes "exit"; d0 = name_of 2 }

abbrev guard_reply : Cell
guard_reply = record (ask_guard (name_of 2)) { type = bytes "guard"; d0 = name_of 3 }

abbrev bridge_reply : Cell
bridge_reply = record (ask_bridge (name_of 2) (name_of 3)) { type = bytes "bridge"; d0 = name_of 1 }

start_circuit-IsChosen_example :
    let (c1, z, out) = start_circuit plain_codec (replicate 32 4) (replicate 32 6) (node_of 9) in
    (c2 c3 c4 : Client) × (out ≡ send_cell ask_exit ∷ [])
    × (ws_step node_env c1 exit_reply ≡ done (c2, []))
    × (request_guard (c2.circuit z) ≡ send_cell (ask_guard (name_of 2)))
    × (ws_step node_env c2 guard_reply ≡ done (c3, dial_peer (name_of 3) [] true false ∷ []))
    × (request_bridge (c3.circuit z) ≡ send_cell (ask_bridge (name_of 2) (name_of 3)))
    × (ws_step node_env c3 bridge_reply ≡ done (c4, []))
    × IsChosen (9 ∷ []) (c4.circuit z)
    × ((p : ℕ) × (lookup (c4.circuit z).exit.id server.exits ≡ some p))
    × ((p : ℕ) × (lookup (c4.circuit z).guard.id server.guards ≡ some p))
    × ((p : ℕ) × (lookup (c4.circuit z).bridge.id server.guards ≡ some p))
unfolding minedive_dispatch get_exit get_guard lookup has ◌is◌ bytes split make_avoid_map
start_circuit-IsChosen_example =
    start_circuit-IsChosen plain_codec (replicate 32 4) (replicate 32 6) (node_of 9) node_env env
      env env server server server server server server 9 9 9 9 exit_reply guard_reply bridge_reply
      server-IsKeyed server-IsKeyed server-IsKeyed server-HasNames server-HasNames refl refl refl
      refl refl refl
