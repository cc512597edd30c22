-- ===== src/Examples/Introductions.antt =====
-- Two nodes that the server makes known to one another.
use minedive.Common.{
  ◌≡◌, refl, true, false, [], ◌∷◌, ◌++◌, Option, none, some, Bytes, bytes, Dict, lookup, ◌is◌, done,
  panic,
}
use minedive.Codec.{Value, text}
use minedive.Protocol.{Cell, zero_cell}
use minedive.Server.Clients.{get_other_peer}
use minedive.Client.Peers.{peer_is_present, get_peer}
use minedive.Server.Aliases.{cell_members, get_alias, send_peer}
use minedive.Client.State.{dial_peer}
use minedive.Client.Rendezvous.{Env, ws_step}
use minedive.Client.Rendezvous.Answers.{answer_stops_node}
use minedive.Mined.{minedive_dispatch}
use minedive.Server.Clients.{fwd_loop}
use minedive.Client.Rendezvous.Introduction.{IsUnmarshal, send_peer_introduces}
use minedive.Examples.Packages.{
  plain_codec, plain_codec-IsCodec, plain_codec_parse, plain_codec_nothing, plain_codec_valid,
  plain_nacl,
}
use minedive.Examples.Servers.{name_of, server, env as server_env}
use minedive.Examples.Nodes.{node_of}

cell_of : Dict Value → Option Cell
cell_of ((k0, text a) ∷ (k1, text b) ∷ (k2, text c) ∷ (k3, text d) ∷ (k4, text e) ∷ []) =
    some (record { type = a; d0 = b; d1 = c; d2 = d; d3 = e })
cell_of d = none

pub unmarshal : Bytes → Option Cell
unfolding cell_of
unmarshal s = elim (plain_codec.parse s) [ none ↦ none | some d ↦ cell_of d ]

unmarshal-IsUnmarshal : IsUnmarshal plain_codec unmarshal
unfolding unmarshal cell_members
unmarshal-IsUnmarshal = record {
  unmarshal-print = λ m h. rw (plain_codec_parse (cell_members m), unmarshal) refl;
  unmarshal_empty = rw (plain_codec_nothing, unmarshal) refl;
}

abbrev pub env : Env
env = record {
  codec = plain_codec;
  nacl = plain_nacl;
  unmarshal = unmarshal;
  attrs = bytes "e,g";
  offered = λ p. false;
}

send_peer_introduces_example :
    (x y : Cell) × (send_peer plain_codec plain_nacl server 1 1 ≡ (1, x) ∷ (2, y) ∷ [])
    × (ws_step env (node_of 1) x
        ≡ done (
          node_of 1,
          dial_peer
                (name_of 2)
                (get_alias plain_codec plain_nacl (server.heap 1) (name_of 2))
                false
                true
              ∷ [],
        ))
    × (ws_step env (node_of 2) y
        ≡ done (
          node_of 2,
          dial_peer
                (name_of 1)
                (get_alias plain_codec plain_nacl (server.heap 2) (name_of 1))
                true
                true
              ∷ [],
        ))
unfolding get_other_peer peer_is_present lookup ◌is◌ bytes
send_peer_introduces_example =
    send_peer_introduces env plain_codec-IsCodec unmarshal-IsUnmarshal server 1 1 2 (node_of 1)
      (node_of 2) refl (plain_codec_valid _) (plain_codec_valid _) refl refl

-- Client 3 sends node 1 an answer to an offer that node 1 never made to it.
abbrev false_answer : Cell
false_answer = record zero_cell { type = bytes "answer"; d0 = name_of 3; d1 = name_of 1 }

answer_stops_node_example :
    (minedive_dispatch server_env server 3 false_answer
      ≡ done (
        server,
        fwd_loop server false_answer []
            ++ (1, false_answer) ∷ fwd_loop server false_answer (2 ∷ 3 ∷ []),
      ))
    × (ws_step env (node_of 1) false_answer ≡ panic)
unfolding get_peer lookup ◌is◌ bytes
answer_stops_node_example =
    answer_stops_node server_env server 3 1 false_answer [] (2 ∷ 3 ∷ []) env (node_of 1) refl refl
      refl refl
