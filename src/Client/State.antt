-- ===== src/Client/State.antt =====
-- The state of a node: client.go `Client`, l1peer.go `L1Peer`, l2peer.go `L2Peer`, circuit.go
-- `Node` and `Circuit`. A pointer to one of the last four is a number, and `peer`, `l2` and
-- `circuit` say what it points to; those from `free` on are not in use. A data channel is a number
-- too.
use minedive.Common.{ℕ, Bool, List, [], Option, Bytes, Dict, ◌==◌, if◌then◌else◌, replicate}
use minedive.Protocol.{Cell}

pub record L1Peer : Type 0 where
  pub name : Bytes
  pub alias : Bytes
  pub dc : ℕ
  pub exit : Bool
  pub sdp : Bytes

pub record L2Peer : Type 0 where
  pub name : Bytes
  pub gw : Option ℕ
  pub ononce : Bytes
  pub msg_ignored : ℕ
  pub state : Bytes
  pub k : Bytes
  pub pk : Bytes

pub record Node : Type 0 where
  pub id : Bytes
  pub okey : Bytes
  pub tkey : Bytes
  pub nonce : Bytes

pub record Circuit : Type 0 where
  pub circuit_id : Bytes
  pub dc : Option ℕ
  pub state : Bytes
  pub guard : Node
  pub bridge : Node
  pub exit : Node
  pub pub_k : Bytes
  pub priv_k : Bytes

pub record Client : Type 0 where
  pub tid : Bytes
  pub priv_k : Bytes
  pub pk : Bytes
  pub has_searcher : Bool
  pub has_responder : Bool
  pub l1_peers : Dict ℕ
  pub l2_peers : Dict ℕ
  pub keys : Dict Bytes
  pub circuits : List ℕ
  pub routes : Dict ℕ
  pub peer : ℕ → L1Peer
  pub l2 : ℕ → L2Peer
  pub circuit : ℕ → Circuit
  pub free : ℕ

abbrev pub zero_node : Node
zero_node = record { id = []; okey = replicate 32 0; tkey = replicate 32 0; nonce = replicate 24 0 }

-- What a handler does outside the node's memory, in order. `send_text` is `dc.SendText`, whose
-- error is only logged; `send_cell` is `JSONSuccessSend`; `search` and `respond` call `Searcher`
-- and `Responder`; `dial_peer` is `newL1Peer` on the name, the alias and the two flags.
-- `set_remote` is `SetRemoteDescription` of the peer with that name, and what WebRTC does for an
-- answer to it; `redial_server` closes the websocket and opens it again.
pub data Effect : Type 0 where
  send_text : ℕ → Bytes → Effect
  send_cell : Cell → Effect
  search : Bytes → Bytes → Bytes → Bytes → Bytes → Effect
  respond : Bytes → Effect
  dial_peer : Bytes → Bytes → Bool → Bool → Effect
  set_remote : Bytes → Bytes → Bytes → Effect
  redial_server : Effect

-- Assignments through a pointer.
unfoldable pub put_l2 : ℕ → L2Peer → Client → Client
put_l2 p v c = record c { l2 = λ q. if q == p then v else c.l2 q }

unfoldable pub put_peer : ℕ → L1Peer → Client → Client
put_peer p v c = record c { peer = λ q. if q == p then v else c.peer q }

unfoldable pub put_circuit : ℕ → Circuit → Client → Client
put_circuit p v c = record c { circuit = λ q. if q == p then v else c.circuit q }
