-- ===== src/Examples/Connections.antt =====
-- Connections of nodes 1 and 2.
use minedive.Common.{
  ◌≤◌, ◌≡◌, ◌⊎◌, refl, true, false, if◌then◌else◌, List, [], ◌∷◌, ◌++◌, some, bytes, ◌is◌, lookup,
  done, panic,
}
use minedive.Protocol.{Cell}
use minedive.Server.Clients.{fwd_loop}
use minedive.Mined.{minedive_dispatch}
use minedive.Client.State.{Client, Effect, send_cell, dial_peer, set_remote, put_peer}
use minedive.Client.Peers.{get_peer}
use minedive.Client.Rendezvous.{Env, ws_step}
use minedive.Client.Connection.{
  Connection, Event, ice_candidate, ice_done, dc_open, data_channel, new_connection,
  finish_connection, run_events,
}
use minedive.Client.Connection.Once.{cells, channels, first_answer, run_events_total}
use minedive.Client.Connection.Handshake.{handshake_completes}
use minedive.Examples.Packages.{plain_codec}
use minedive.Examples.Servers.{name_of, server, env as server_env}
use minedive.Examples.Nodes.{node_of}
use minedive.Examples.Introductions.{env}

abbrev events : List Event
events =
    ice_candidate
    ∷ ice_done (bytes "sdp")
    ∷ ice_done (bytes "late")
    ∷ data_channel 4
    ∷ dc_open (bytes "0")
    ∷ []

run_events_total_example :
    let (k, c1) = new_connection (name_of 2) [] false true 3 (node_of 1) in
    ((channels events ≤ 1)
      × (k' : Connection) × (c' : Client) × (out : List Effect) × (run_events plain_codec events k
            c1
          ≡ done (k', c', out))
      × (cells out ≡ (if false then [] else first_answer (node_of 1).tid (name_of 2) events)))
    ⊎ ((2 ≤ channels events) × (run_events plain_codec events k c1 ≡ panic))
run_events_total_example =
    run_events_total plain_codec (name_of 2) [] false true 3 (node_of 1) events

abbrev waiting : Env
waiting = record env { offered = λ p. true }

handshake_completes_example :
    let (k, a1) = new_connection (node_of 2).tid [] true true 3 (node_of 1) in
    let (kb, b1) = new_connection (node_of 1).tid (bytes "XXX") false false 4 (node_of 2) in
    (o r : Cell) × (a2 : Client) × (kb' : Connection) × (finish_connection (bytes "s") k a1
      ≡ (a2, send_cell o ∷ []))
    × (minedive_dispatch server_env server 1 o
        ≡ done (server, fwd_loop server o (1 ∷ []) ++ (2, o) ∷ fwd_loop server o (3 ∷ [])))
    × (ws_step waiting (node_of 2) o
        ≡ done (
          node_of 2,
          dial_peer (name_of 1) (bytes "XXX") false false
              ∷ set_remote (name_of 1) (bytes "offer") (bytes "s")
              ∷ [],
        ))
    × (run_events plain_codec (ice_done (bytes "t") ∷ []) kb b1 ≡ done (kb', b1, send_cell r ∷ []))
    × (minedive_dispatch server_env server 2 r
        ≡ done (server, fwd_loop server r [] ++ (1, r) ∷ fwd_loop server r (2 ∷ 3 ∷ [])))
    × (get_peer a2 (name_of 2) ≡ some k.p)
    × (ws_step waiting a2 r
        ≡ done (
          put_peer k.p (record (a2.peer k.p) { sdp = bytes "t" }) a2,
          set_remote (name_of 2) (bytes "answer") (bytes "t") ∷ [],
        ))
unfolding get_peer lookup ◌is◌ bytes
handshake_completes_example =
    handshake_completes plain_codec waiting waiting server_env server_env server (1 ∷ []) (3 ∷ [])
      [] (2 ∷ 3 ∷ []) 1 2 (node_of 1) (node_of 2) [] true 3 4 (bytes "s") (bytes "t") refl refl refl
      refl refl refl refl
