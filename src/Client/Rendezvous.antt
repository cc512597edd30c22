-- ===== src/Client/Rendezvous.antt =====
-- client.go: `ws_loop` and `userlistHandler`, what a node does with a cell of the server. What the
-- loop starts as a goroutine is part of the step here.
pub mod Introduction
pub mod Answers
pub mod Keys
pub mod Signals
pub mod Proposals
use minedive.Common.{
  ℕ, zero, Bool, true, false, List, [], ◌∷◌, ◌++◌, Option, none, some, Bytes, bytes, ◌is◌,
  if◌then◌else◌, replicate, insert, Outcome, done, panic, ◌>>=◌,
}
use minedive.Codec.{Codec, Nacl, Decoded, copy}
use minedive.Protocol.{Cell, zero_cell}
use minedive.Client.State.{
  Client, L1Peer, L2Peer, Node, Circuit, Effect, send_cell, dial_peer, set_remote, redial_server,
  put_peer, put_l2, put_circuit,
}
use minedive.Client.Peers.{get_peer, peer_is_present}
use minedive.Client.L2.{get_l2_peer, skip_nonces}

abbrev pub Handled : Type 0
Handled = Outcome (Client × List Effect)

-- What the loop is given from outside: the packages, `json.Unmarshal` into a zero cell (`none` is
-- an error), the attributes of the options, and the peers whose connection waits for an answer
-- (`SignalingStateHaveLocalOffer`).
pub record Env : Type 0 where
  pub codec : Codec
  pub nacl : Nacl
  pub unmarshal : Bytes → Option Cell
  pub attrs : Bytes
  pub offered : ℕ → Bool

-- A peer that is not known is made with the alias "XXX".
unfoldable pub accept_offer : Client → Bytes → Bytes → List Effect
accept_offer c target sdp =
    let describe = set_remote target (bytes "offer") sdp ∷ [] in
    elim (get_peer c target) [
      | none ↦ dial_peer target (bytes "XXX") false false ∷ describe
      | some p ↦ describe
    ]

-- `p.SDP = sdp` stands before the test that there is a peer, so a nil peer panics.
unfoldable pub accept_answer : (ℕ → Bool) → Client → Bytes → Bytes → Handled
accept_answer offered c target sdp = elim (get_peer c target) [
  | none ↦ panic
  | some p ↦ done (
    put_peer p (record (c.peer p) { sdp = sdp }) c,
    if offered p then set_remote target (bytes "answer") sdp ∷ [] else [],
  )
]

-- `cli.Circuits[0]`; with no circuit it panics.
on_first : (Circuit → Circuit) → List Effect → Client → List ℕ → Handled
on_first f out c [] = panic
on_first f out c (z ∷ zs) = done (put_circuit z (f (c.circuit z)) c, out)

-- The cases of the switch on the type of a cell.
pub data Reply : Type 0 where
  userlist pong guard_reply bridge_reply exit_reply offer answer k key unknown : Reply

unfoldable pub reply_of : Bytes → Reply
reply_of t =
    if t is bytes "userlist"
    then userlist
    else if t is bytes "pong"
    then pong
    else if t is bytes "guard"
    then guard_reply
    else if t is bytes "bridge"
    then bridge_reply
    else if t is bytes "exit"
    then exit_reply
    else if t is bytes "offer"
    then offer
    else if t is bytes "answer"
    then answer
    else if t is bytes "k"
    then k
    else if t is bytes "key"
    then key
    else unknown

-- The cell that a client registers with: `Redial` and the functions that dial send it.
unfoldable pub gettid_cell : Codec → Bytes → Bytes → Cell
gettid_cell codec pk attrs = record zero_cell {
  type = bytes "gettid";
  d0 = codec.encode pk;
  d1 = attrs;
}

unfoldable pub redial : Codec → Bytes → Client → List Effect
redial codec attrs c = redial_server ∷ send_cell (gettid_cell codec c.pk attrs) ∷ []

-- `websocket.CloseStatus` of a read error; `no_status` is -1.
pub data CloseStatus : Type 0 where
  going_away abnormal_closure no_status other_status : CloseStatus

module _ (env : Env) (c : Client) where
  -- What `userlistHandler` does with the user that the cell describes.
  meet : Cell → Cell → List Effect
  meet cell user =
      let initiator = cell.d0 is bytes "1" in
      if peer_is_present c user.d0
      then []
      else dial_peer user.d0 user.d1 initiator (user.d2 is bytes "e") ∷ []

  unfoldable pub userlist_handler : Cell → List Effect
  unfolding meet
  userlist_handler cell =
      let a = env.codec.decode cell.d1 in
      let met : List Effect = elim (env.unmarshal a.slice) [
        | none ↦ []
        | some user ↦ meet cell user
      ] in
      if a.good then (if a.slice is [] then [] else met) else []

  -- "k"
  learn_key : Cell → Client × List Effect
  learn_key cell =
      let key = env.codec.decode cell.d1 in
      let k32 = copy (replicate 32 0) key.slice in
      if key.good then (record c { keys = insert cell.d0 k32 c.keys }, []) else (c, [])

  -- "key". The error of decoding is logged only. The loop that follows moves the nonce on, once for
  -- each message that could not be read, and leaves none ignored.
  learn_l2_key : Cell → Handled
  unfolding skip_nonces
  learn_l2_key cell = do
    met ← get_l2_peer c cell.d0 none false
    let (c', l2, out) = met
    let peer = c'.l2 l2
    let pk = copy peer.pk (env.codec.decode cell.d1).slice
    let peer' = record peer {
      pk = pk;
      k = env.nacl.precompute pk c.priv_k;
      ononce = skip_nonces peer.msg_ignored peer.ononce;
      msg_ignored = 0;
    }
    done (put_l2 l2 peer' c', out)

  handle : Cell → Reply → Handled
  unfolding on_first learn_key learn_l2_key
  handle cell userlist = done (c, userlist_handler cell)
  handle cell pong = done (c, [])
  handle cell guard_reply =
      on_first (λ z. record z { guard = record z.guard { id = cell.d0 } })
        (dial_peer cell.d0 [] true false ∷ []) c c.circuits
  handle cell bridge_reply =
      on_first (λ z. record z { bridge = record z.bridge { id = cell.d0 } }) [] c c.circuits
  handle cell exit_reply =
      on_first (λ z. record z { exit = record z.exit { id = cell.d0 } }) [] c c.circuits
  handle cell offer = done (c, accept_offer c cell.d0 cell.d2)
  handle cell answer = accept_answer env.offered c cell.d0 cell.d2
  handle cell k = done (learn_key cell)
  handle cell key = learn_l2_key cell
  handle cell unknown = done (c, [])

  -- The loop on a cell that it has read.
  unfoldable pub ws_step : Cell → Handled
  unfolding handle reply_of
  ws_step cell = handle cell (reply_of cell.type)

  -- The loop on a read error.
  unfoldable pub ws_failed : CloseStatus → List Effect
  ws_failed going_away = redial env.codec env.attrs c
  ws_failed abnormal_closure = redial env.codec env.attrs c
  ws_failed no_status = redial env.codec env.attrs c
  ws_failed other_status = []
