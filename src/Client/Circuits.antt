-- ===== src/Client/Circuits.antt =====
-- circuit.go: `(*Circuit).Send` and `(*Client).ReplyCircuit`.
pub mod Sending
pub mod FromPeers
pub mod Building
use minedive.Common.{
  ℕ, zero, suc, Bool, true, false, List, [], ◌∷◌, ◌++◌, Option, none, some, Bytes, bytes,
  if◌then◌else◌, replicate, Dict, lookup, length, Outcome, done, panic, ◌>>=◌, ◌is◌,
}
use minedive.Codec.{Codec, Nacl, Decoded, slice_to, copy}
use minedive.Nonce.{inc_nonce, use_nonce}
use minedive.Server.Aliases.{or_panic}
use minedive.Wire.{EncL1Msg, zero_enc, enc_members, FwdMsg, zero_fwd, fwd_members}
use minedive.Client.State.{Client, L1Peer, Node, Circuit, Effect, send_text}

-- What the round of `Send` sends: the text and the node with its nonce moved on, or just that node
-- where the nonce has expired and the round starts again.
pub data Sealed : Type 0 where
  sealed : Node → Bytes → Sealed
  expired : Node → Sealed

-- `StateOK`
unfoldable pub state_ok : Circuit → Bool
state_ok c = c.state is bytes "OK"

-- The slice that `DecodeString` gave, after `IncNonce` on it.
abbrev pub bumped : Decoded → Decoded
bumped d = record d { slice = (inc_nonce d.slice (length d.slice)).0 }

module _ (codec : Codec) (nacl : Nacl) where
  -- The `encL1Msg` for one node: `o` with the key of the circuit.
  unfoldable pub layer : Bytes → Node → Bytes → EncL1Msg
  layer pub_k node msg = record zero_enc {
    type = bytes "enc";
    key = codec.encode pub_k;
    tpk = codec.encode node.okey;
    nonce = codec.encode node.nonce;
    ct = codec.encode (nacl.seal msg node.nonce node.tkey);
  }

  -- `UseNonce` on the node's nonce, then the message sealed under the new nonce.
  unfoldable pub seal_for : Bytes → Node → Bytes → Sealed
  seal_for pub_k node msg =
      let (nonce, text, good) = use_nonce codec.encode node.nonce in
      let node' : Node = record node { nonce = nonce } in
      if good
      then sealed node' (codec.print (enc_members (layer pub_k node' msg)))
      else expired node'

  -- `fwd2` around an encrypted message.
  unfoldable pub wrap : Bytes → Bytes → FwdMsg
  wrap to b = record zero_fwd { type = bytes "fwd2"; to = to; ori = codec.encode b }

  -- One round of `Send`, from the label BEGIN: the circuit as it leaves it, and the text for the
  -- guard, or `none` where it goes back to BEGIN.
  pub send_round : Circuit → Bytes → Circuit × Option Bytes
  send_round c msg = elim (seal_for c.pub_k c.exit msg) [
    | expired exit ↦ (record c { exit = exit }, none)
    | sealed exit b1 ↦
        elim (seal_for c.pub_k c.bridge (codec.print (fwd_members (wrap exit.id b1)))) [
          | expired bridge ↦ (record c { exit = exit; bridge = bridge }, none)
          | sealed bridge b2 ↦
              elim (seal_for c.pub_k c.guard (codec.print (fwd_members (wrap bridge.id b2)))) [
                | expired guard ↦ (record c { exit = exit; bridge = bridge; guard = guard }, none)
                | sealed guard b3 ↦
                    (record c { exit = exit; bridge = bridge; guard = guard }, some b3)
              ]
        ]
  ]

  -- The rounds of `Send`; `none` means that the fuel ran out.
  send_rounds : ℕ → Circuit → Bytes → Option (Circuit × Bytes)
  send_rounds zero c msg = none
  send_rounds (suc fuel) c msg =
      let (c', sent) = send_round c msg in
      elim sent [ none ↦ send_rounds fuel c' msg | some b ↦ some (c', b) ]

  -- `Send`: the circuit with its nonces moved on, and the write to the guard. A circuit that has no
  -- data channel panics.
  unfoldable pub send : ℕ → Circuit → Bytes → Option (Outcome (Circuit × Effect))
  unfolding send_rounds send_round
  send fuel c msg = elim (send_rounds fuel c msg) [
    | none ↦ none
    | some (c', b) ↦ some (do dc ← or_panic c'.dc; done (c', send_text dc b))
  ]

  -- The reply that `ReplyCircuit` builds for the exit of a circuit, once both texts are decoded.
  unfoldable pub reply_msg : Client → Bytes → Bytes → Bytes → Bytes → EncL1Msg
  reply_msg m msg e_key nonce peer_key = record zero_enc {
    type = bytes "encrep";
    key = codec.encode m.pk;
    tpk = e_key;
    nonce = codec.encode nonce;
    ct = codec.encode (nacl.seal msg nonce (nacl.precompute peer_key m.priv_k));
  }

  -- `ReplyCircuit`
  unfoldable pub reply_circuit : Client → Bytes → Bytes → Bytes → Outcome (List Effect)
  reply_circuit m msg e_key e_nonce =
      let tnonce = codec.decode e_nonce in
      let tpeer_key = codec.decode e_key in
      let reply = λ (p : ℕ) (n : Bytes). (do
        key ← or_panic (slice_to 32 tpeer_key)
        let o = reply_msg m msg e_key (copy (replicate 24 0) n) (copy (replicate 32 0) key)
        done (send_text (m.peer p).dc (codec.print (enc_members o)) ∷ [])) in
      let keyed = λ (p : ℕ). (do
        n ← or_panic (slice_to 24 (bumped tnonce))
        if tpeer_key.good then reply p n else done []) in
      elim (lookup e_key m.routes) [
        | none ↦ done []
        | some p ↦ if tnonce.good then keyed p else done []
      ]
