-- ===== src/Client/Connection/Handshake.antt =====
-- Two nodes that come to know each other over mined: `newL1Peer` on both sides, `AcceptOffer` and
-- `AcceptAnswer`.
use minedive.Common.{
  ℕ, ◌≡◌, refl, ap, ◌∙◌, Bool, true, false, List, [], ◌∷◌, ◌++◌, Bytes, bytes, none, some, lookup,
  insert, lookup-insert_self, ==_refl, done,
}
use minedive.Codec.{Codec}
use minedive.Protocol.{Cell}
use minedive.Server.State.{MinediveServer, Writes}
use minedive.Server.Clients.{fwd_loop}
use minedive.Server.Clients.Forwarding.{fwd_to_target-member}
use minedive.Mined.{Env as ServerEnv, minedive_dispatch}
use minedive.Mined.Signaling.{minedive_dispatch-offer, minedive_dispatch-answer}
use minedive.Client.State.{Client, send_cell, dial_peer, set_remote, put_peer}
use minedive.Client.Peers.{get_peer, add_peer}
use minedive.Client.Rendezvous.{Env, ws_step}
use minedive.Client.Rendezvous.Signals.{ws_step-offer, ws_step-answer}
use minedive.Client.Connection.{
  Connection, ice_done, new_connection, finish_connection, offer_cell, answer_cell, run_events,
  on_event, on_ice_done, finish_ice, close_chan,
}

add_peer-new :
    (p : ℕ) (name : Bytes) (c : Client)
    → (c.peer p).name ≡ name
    → lookup name c.l1_peers ≡ none
    → (add_peer p c).0 ≡ record c { l1_peers = insert name p c.l1_peers }
unfolding add_peer
add_peer-new p name c named unknown = rw (named, add_peer, unknown, named) refl

made_named :
    (name alias : Bytes) (initiator exit : Bool) (dc : ℕ) (c : Client)
    → let (k, c1) = new_connection name alias initiator exit dc c in (c1.peer k.p).name ≡ name
unfolding new_connection put_peer
made_named name alias initiator exit dc c = rw (==_refl c.free) refl

-- An initiator that has no peer of the name: the offer goes out, and then the peer is there.
initiator_offers :
    (a : Client) (name alias sdp : Bytes) (exit : Bool) (dc : ℕ)
    → get_peer a name ≡ none
    → let (k, a1) = new_connection name alias true exit dc a in
      (a2 : Client) × (finish_connection sdp k a1
        ≡ (a2, send_cell (offer_cell a.tid name sdp) ∷ []))
      × (get_peer a2 name ≡ some k.p)
unfolding new_connection finish_connection get_peer put_peer
initiator_offers a name alias sdp exit dc unknown =
    let (k, a1) = new_connection name alias true exit dc a in
    let added : (add_peer k.p a1).0 ≡ record a1 { l1_peers = insert name k.p a1.l1_peers } =
      add_peer-new k.p name a1 (made_named name alias true exit dc a) unknown in
    (
      record a1 { l1_peers = insert name k.p a1.l1_peers },
      ap (λ (c : Client). (c, send_cell (offer_cell a.tid name sdp) ∷ [])) added,
      lookup-insert_self name k.p a1.l1_peers,
    )

-- Two nodes find each other over mined, where neither has the other as a peer, each is listed under
-- its name, and no namesake. The first makes a connection and, with its description
-- complete, sends one cell, the offer, and adds the peer. The server writes the offer to the other
-- node; on it, that node makes a connection of its own with the offer as its remote description,
-- and when its description is complete it sends one cell, the answer. The server writes the answer
-- to the first node; on it, that node gives its peer the description, as the answer to its offer.
pub handshake_completes :
    (codec : Codec) (env_a env_b : Env) (e1 e2 : ServerEnv) (s : MinediveServer)
    (front back front' back' : List ℕ) (va vb : ℕ) (a b : Client) (alias : Bytes) (exit : Bool)
    (dc dc' : ℕ) (sdp sdp' : Bytes)
    → get_peer a b.tid ≡ none
    → get_peer b a.tid ≡ none
    → env_a.offered a.free ≡ true
    → s.clients ≡ front ++ vb ∷ back
    → (s.heap vb).name ≡ b.tid
    → s.clients ≡ front' ++ va ∷ back'
    → (s.heap va).name ≡ a.tid
    → let (k, a1) = new_connection b.tid alias true exit dc a in
      let (kb, b1) = new_connection a.tid (bytes "XXX") false false dc' b in
      (o r : Cell) × (a2 : Client) × (kb' : Connection) × (finish_connection sdp k a1
        ≡ (a2, send_cell o ∷ []))
      × (minedive_dispatch e1 s va o
          ≡ done (s, fwd_loop s o front ++ ((s.heap vb).ws, o) ∷ fwd_loop s o back))
      × (ws_step env_b b o
          ≡ done (
            b,
            dial_peer a.tid (bytes "XXX") false false ∷ set_remote a.tid (bytes "offer") sdp ∷ [],
          ))
      × (run_events codec (ice_done sdp' ∷ []) kb b1 ≡ done (kb', b1, send_cell r ∷ []))
      × (minedive_dispatch e2 s vb r
          ≡ done (s, fwd_loop s r front' ++ ((s.heap va).ws, r) ∷ fwd_loop s r back'))
      × (get_peer a2 b.tid ≡ some k.p)
      × (ws_step env_a a2 r
          ≡ done (
            put_peer k.p (record (a2.peer k.p) { sdp = sdp' }) a2,
            set_remote b.tid (bytes "answer") sdp' ∷ [],
          ))
unfolding new_connection run_events on_event on_ice_done finish_ice close_chan offer_cell
    answer_cell put_peer
handshake_completes codec env_a env_b e1 e2 s front back front' back' va vb a b alias exit dc dc'
      sdp sdp' new_b new_a waits listed_b named_b listed_a named_a =
    let o : Cell = offer_cell a.tid b.tid sdp in
    let r : Cell = answer_cell b.tid a.tid sdp' in
    let (a2, sent, known) = initiator_offers a b.tid alias sdp exit dc new_b in
    (
      o,
      r,
      a2,
      _,
      sent,
      minedive_dispatch-offer e1 s va o refl
          ∙ ap (λ (w : Writes). done (s, w))
              (fwd_to_target-member s o front back vb listed_b named_b),
      ws_step-offer env_b b o refl new_a,
      refl,
      minedive_dispatch-answer e2 s vb r refl
          ∙ ap (λ (w : Writes). done (s, w))
              (fwd_to_target-member s r front' back' va listed_a named_a),
      known,
      ws_step-answer env_a a2 a.free r refl known waits,
    )
