-- ===== src/Client/Relay.antt =====
-- l1peer.go: `DecL1Msg` and `handleL1Msg`, what a node does with a message of a data channel.
pub mod Forward
pub mod Tests
pub mod Connects
pub mod Searches
pub mod Gateway
use minedive.Common.{
  ℕ, Bool, true, false, List, [], ◌∷◌, ◌++◌, Option, none, some, Bytes, bytes, ◌is◌, if◌then◌else◌,
  replicate, Dict, lookup, insert, Outcome, done, panic, ◌>>=◌,
}
use minedive.Codec.{Codec, Nacl, Decoded, slice_to, copy}
use minedive.Server.Aliases.{or_panic}
use minedive.Wire.{
  EncL1Msg, FwdMsg, L2L1Msg, L2Msg, PingL1Msg, read_enc, read_fwd, read_min, read_l2, read_ping,
  read_l2l1, members, ping_members, l2l1_members, fwd_members,
}
use minedive.Client.State.{
  Client, L1Peer, Circuit, Effect, send_text, search, respond, dial_peer, put_circuit,
}
use minedive.Client.Peers.{get_peer, get_other_peers, get_peer_by_alias}
use minedive.Client.L2.{get_l2_peer}
use minedive.Client.L2Search.{handle_l2_msg}
use minedive.Client.Circuits.{reply_circuit}

-- The cases of the switch of `handleL1Msg`.
pub data Message : Type 0 where
  search_msg respv2 connect ping pong getl2 test test2 fwd2 fwd l2 unknown : Message

unfoldable pub message_of : Bytes → Message
message_of t =
    if t is bytes "search"
    then search_msg
    else if t is bytes "respv2"
    then respv2
    else if t is bytes "connect"
    then connect
    else if t is bytes "ping"
    then ping
    else if t is bytes "pong"
    then pong
    else if t is bytes "getl2"
    then getl2
    else if t is bytes "test"
    then test
    else if t is bytes "test2"
    then test2
    else if t is bytes "fwd2"
    then fwd2
    else if t is bytes "fwd"
    then fwd
    else if t is bytes "l2"
    then l2
    else unknown

-- What a handler is given from outside: the packages, the orders of the `range` over `L1Peers`
-- for "getl2" and for "fwd", and the keys that a second-level peer has after each wait.
pub record Env : Type 0 where
  pub codec : Codec
  pub nacl : Nacl
  pub order : List Bytes
  pub alias_order : List Bytes
  pub k2 : Bytes
  pub k3 : Bytes

abbrev pub Handled : Type 0
Handled = Outcome (Client × List Effect)

-- The loop of "l2".
learn_l2 : Client → ℕ → List Bytes → Outcome (Client × List Effect)
learn_l2 c p [] = done (c, [])
learn_l2 c p (s ∷ l2s) = do
  met ← get_l2_peer c s (some p) true
  let (c', known, out) = met
  rest ← learn_l2 c' p l2s
  let (c'', outs) = rest
  done (c'', out ++ outs)

module _ (env : Env) (c : Client) (p : ℕ) (msg : Bytes) where
  handle_search : Option EncL1Msg → Handled
  handle_search none = done (c, [])
  handle_search (some e) =
      let m = read_l2 (members env.codec msg) in
      done (c, if c.has_searcher then search e.key m.query m.lang e.key e.nonce ∷ [] else [])

  handle_connect : Handled
  handle_connect =
      let m = read_fwd (members env.codec msg) in
      elim (get_peer c m.to) [
        | none ↦ done (c, dial_peer m.to [] true false ∷ [])
        | some q ↦ done (c, [])
      ]

  handle_ping : Handled
  handle_ping =
      let m = read_ping (members env.codec msg) in
      let pong_msg = record m { type = bytes "pong"; from = c.tid } in
      done (c, send_text (c.peer p).dc (env.codec.print (ping_members pong_msg)) ∷ [])

  handle_getl2 : Handled
  handle_getl2 =
      let from = (read_min (members env.codec msg)).from in
      elim (get_other_peers c from env.order) [
        | [] ↦ done (c, [])
        | a ∷ r ↦
            let m : L2L1Msg = record { type = bytes "l2"; from = c.tid; l2 = a ∷ r; i = 0 } in
            done (c, send_text (c.peer p).dc (env.codec.print (l2l1_members m)) ∷ [])
      ]

  -- A nil `encMsg` panics.
  handle_test : Option EncL1Msg → Handled
  handle_test none = panic
  handle_test (some e) = do
    out ← reply_circuit env.codec env.nacl c (bytes "{\"type\":\"test2\"}") e.key e.nonce
    done (c, out)

  -- `cli.Circuits[0]`; with no circuit it panics.
  handle_test2 : List ℕ → Handled
  handle_test2 [] = panic
  handle_test2 (z ∷ zs) = done (put_circuit z (record (c.circuit z) { state = bytes "OK" }) c, [])

  handle_fwd2 : Handled
  handle_fwd2 =
      let m = read_fwd (members env.codec msg) in
      let b = env.codec.decode m.ori in
      elim (get_peer c m.to) [
        | none ↦ done (c, [])
        | some tgt ↦ done (c, if b.good then send_text (c.peer tgt).dc b.slice ∷ [] else [])
      ]

  handle_fwd : Handled
  handle_fwd =
      let m = read_fwd (members env.codec msg) in
      let own = handle_l2_msg env.codec env.nacl c p msg env.k2 env.k3 in
      let relayed : Handled = elim (get_peer_by_alias c m.to env.alias_order) [
        | none ↦ done (c, [])
        | some next ↦
            let m' = record m { from = c.tid; ori = (c.peer p).alias; to = (c.peer next).name } in
            done (c, send_text (c.peer next).dc (env.codec.print (fwd_members m')) ∷ [])
      ] in
      if m.to is c.tid then own else relayed

  handle : Option EncL1Msg → Message → Handled
  unfolding handle_search handle_connect handle_ping handle_getl2 handle_test handle_test2
      handle_fwd2 handle_fwd learn_l2
  handle enc search_msg = handle_search enc
  handle enc respv2 = done (c, if c.has_responder then respond msg ∷ [] else [])
  handle enc connect = handle_connect
  handle enc ping = handle_ping
  handle enc pong = done (c, [])
  handle enc getl2 = handle_getl2
  handle enc test = handle_test enc
  handle enc test2 = handle_test2 c.circuits
  handle enc fwd2 = handle_fwd2
  handle enc fwd = handle_fwd
  handle enc l2 = learn_l2 c p (read_l2l1 (members env.codec msg)).l2
  handle enc unknown = done (c, [])

  unfoldable pub handle_l1_msg : Option EncL1Msg → Handled
  unfolding handle
  handle_l1_msg enc = handle enc (message_of (read_min (members env.codec msg)).type)
