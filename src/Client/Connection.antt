-- ===== src/Client/Connection.antt =====
-- l1peer.go: `newL1Peer`, the connection to one peer, and its callbacks. WebRTC calls them one at a
-- time, each with an event; a goroutine's wait for a channel is the order of the events. The
-- callback `OnMessage` is `dec_l1_msg`. `NewPeerConnection` and the calls on what it gives succeed.
pub mod Once
pub mod Handshake
use minedive.Common.{
  ℕ, ◌+◌, Bool, true, false, List, [], ◌∷◌, ◌++◌, Bytes, bytes, ◌is◌, if◌then◌else◌, erase, Outcome,
  done, panic, ◌>>=◌,
}
use minedive.Codec.{Codec}
use minedive.Protocol.{Cell, zero_cell}
use minedive.Wire.{PingL1Msg, ping_members}
use minedive.Client.State.{Client, L1Peer, Effect, send_text, send_cell, put_peer}
use minedive.Client.Peers.{add_peer, delete_peer}

-- What the callbacks of one connection share: the parameters of `newL1Peer`, the pointer to the
-- peer, `iceFinished`, and which of the peer's two channels is closed.
pub record Connection : Type 0 where
  pub name : Bytes
  pub initiator : Bool
  pub p : ℕ
  pub ice_finished : Bool
  pub gather_complete : Bool
  pub data_chan_open : Bool

-- The events: a candidate; the end of the candidates, with the description that is local then; the
-- data channel opens, at that time; it closes; the connection fails; it comes to another state; the
-- other node has made a data channel.
pub data Event : Type 0 where
  ice_candidate : Event
  ice_done : Bytes → Event
  dc_open : Bytes → Event
  dc_close : Event
  pc_failed : Event
  pc_changed : Event
  data_channel : ℕ → Event

-- `close(ch)`, on whether it is closed already.
close_chan : Bool → Outcome Bool
close_chan true = panic
close_chan false = done true

-- Up to the wait for the candidates; `dc` is the data channel made.
pub new_connection : Bytes → Bytes → Bool → Bool → ℕ → Client → Connection × Client
new_connection name alias initiator exit dc c =
    let peer : L1Peer = record { name = name; alias = alias; dc = dc; exit = exit; sdp = [] } in
    (
      record {
        name = name;
        initiator = initiator;
        p = c.free;
        ice_finished = false;
        gather_complete = false;
        data_chan_open = false;
      },
      record (put_peer c.free peer c) { free = c.free + 1 },
    )

-- The cells that the two sides send with their descriptions; the type of an offer is "offer".
unfoldable pub offer_cell : Bytes → Bytes → Bytes → Cell
offer_cell tid name sdp = record zero_cell { type = bytes "offer"; d0 = tid; d1 = name; d2 = sdp }

unfoldable pub answer_cell : Bytes → Bytes → Bytes → Cell
answer_cell tid name sdp = record zero_cell { type = bytes "answer"; d0 = tid; d1 = name; d2 = sdp }

-- From there on: an initiator sends its offer, and only then adds the peer.
pub finish_connection : Bytes → Connection → Client → Client × List Effect
unfolding offer_cell
finish_connection sdp k c =
    ((add_peer k.p c).0, if k.initiator then send_cell (offer_cell c.tid k.name sdp) ∷ [] else [])

-- The text of one round of `L1peerPing`.
pub ping_text : Codec → Bytes → Bytes → Bytes
ping_text codec tid now =
    let m : PingL1Msg = record { type = bytes "ping"; from = tid; text = now } in
    codec.print (ping_members m)

module _ (codec : Codec) where
  -- The first end of the candidates.
  finish_ice : Bytes → Connection → Client → Outcome (Connection × Client × List Effect)
  unfolding close_chan answer_cell
  finish_ice sdp k c = do
    closed ← close_chan k.gather_complete
    let answer : List Effect =
        if k.initiator then [] else send_cell (answer_cell c.tid k.name sdp) ∷ []
    done (record k { ice_finished = true; gather_complete = closed }, c, answer)

  on_ice_done : Bytes → Connection → Client → Outcome (Connection × Client × List Effect)
  unfolding finish_ice
  on_ice_done sdp k c = if k.ice_finished then done (k, c, []) else finish_ice sdp k c

  on_data_channel : ℕ → Connection → Client → Outcome (Connection × Client × List Effect)
  unfolding close_chan
  on_data_channel d k c = do
    closed ← close_chan k.data_chan_open
    done (record k { data_chan_open = closed }, put_peer k.p (record (c.peer k.p) { dc = d }) c, [])

  pub on_event : Event → Connection → Client → Outcome (Connection × Client × List Effect)
  unfolding on_ice_done on_data_channel ping_text
  on_event ice_candidate k c = done (k, c, [])
  on_event (ice_done sdp) k c = on_ice_done sdp k c
  on_event (dc_open now) k c =
      done (k, c, send_text (c.peer k.p).dc (ping_text codec c.tid now) ∷ [])
  on_event dc_close k c = done (k, record c { l1_peers = erase k.name c.l1_peers }, [])
  on_event pc_failed k c = done (k, delete_peer k.name c, [])
  on_event pc_changed k c = done (k, c, [])
  on_event (data_channel d) k c = on_data_channel d k c

  -- The events in their order.
  unfoldable pub run_events :
      List Event → Connection → Client → Outcome (Connection × Client × List Effect)
  unfolding on_event
  run_events [] k c = done (k, c, [])
  run_events (e ∷ es) k c = do
    (k1, c1, out1) ← on_event e k c
    (k2, c2, out2) ← run_events es k1 c1
    done (k2, c2, out1 ++ out2)
