-- ===== src/Client/Circuits/Building.antt =====
-- circuit.go: `NewCircuit` and `SetupCircuit`, as the steps between which they sleep.
pub mod Waiting
pub mod Confirming
use minedive.Common.{
  ℕ, zero, suc, ◌+◌, ◌-◌, ◌≤◌, ◌<◌, ◌≡◌, ◌≢◌, ◌↔◌, refl, inl, inr, Bool, true, false, ◌&&◌, List,
  [], ◌∷◌, ◌++◌, Option, none, some, arith, Bytes, bytes, ◌is◌, is_iff, ltb, if◌then◌else◌,
  replicate, lookup, ◌⊎◌, Bool-cases, Outcome, done, panic,
}
use minedive.Codec.{Codec, Nacl}
use minedive.Nonce.{use_nonce}
use minedive.Protocol.{zero_cell}
use minedive.Wire.{EncL1Msg, enc_members, fwd_members}
use minedive.Client.State.{
  Client, L1Peer, Node, Circuit, Effect, send_text, send_cell, zero_node, put_circuit,
}
use minedive.Client.Peers.{get_peer}
use minedive.Client.Circuits.{layer, wrap}

-- `m.Circuits[0] = c`, or `append` where there is none.
with_first : ℕ → List ℕ → List ℕ
with_first z [] = z ∷ []
with_first z (y ∷ ys) = z ∷ ys

-- The start of `NewCircuit`, with the keys that `box.GenerateKey` gives: the client with the new
-- circuit, its pointer, and the request for an exit.
unfoldable pub start_circuit : Codec → Bytes → Bytes → Client → Client × ℕ × List Effect
unfolding with_first
start_circuit codec public_key private_key m =
    let z = m.free in
    let c : Circuit = record {
      circuit_id = codec.encode public_key;
      dc = none;
      state = [];
      guard = zero_node;
      bridge = zero_node;
      exit = zero_node;
      pub_k = public_key;
      priv_k = private_key;
    } in
    (
      put_circuit z c (record m { circuits = with_first z m.circuits; free = z + 1 }),
      z,
      send_cell (record zero_cell { type = bytes "getexit" }) ∷ [],
    )

-- The new circuit is the first.
pub start_circuit-first :
    (codec : Codec) (public_key private_key : Bytes) (m : Client)
    → let (m', z, out) = start_circuit codec public_key private_key m in
      (zs : List ℕ) × (m'.circuits ≡ z ∷ zs)
unfolding start_circuit with_first put_circuit
start_circuit-first codec public_key private_key m = by_circuits m.circuits
  where
    by_circuits : (cs : List ℕ) → (zs : List ℕ) × (with_first m.free cs ≡ m.free ∷ zs)
    by_circuits [] = ([], refl)
    by_circuits (y ∷ ys) = (ys, refl)

-- What a call of `NewCircuit` meets: the keys of `box.GenerateKey`, with `none` for its error, what
-- becomes of the client from the start until it returns, and whether it returns no error then.
pub record Creation : Type 0 where
  pub circuit_keys : Option (Bytes × Bytes)
  pub later : Client → Client
  pub made : Bool

-- `NewCircuit` as its caller sees it: the client then, the circuit, and what it writes at its
-- start. An error of `GenerateKey` comes before the first use of the client.
unfoldable pub new_circuit :
    Codec → Creation → Option Client → Outcome (Option Client × Option ℕ × List Effect)
new_circuit codec k m = elim k.circuit_keys [
  | none ↦ done (m, none, [])
  | some (public, secret) ↦ elim m [
    | none ↦ panic
    | some c ↦
        let (c', z, out) = start_circuit codec public secret c in
        done (some (k.later c'), if k.made then some z else none, out)
  ]
]

-- The requests of `NewCircuit` for a guard and for a bridge.
unfoldable pub request_guard : Circuit → Effect
request_guard c = send_cell (record zero_cell { type = bytes "getguard"; d0 = c.exit.id })

unfoldable pub request_bridge : Circuit → Effect
request_bridge c =
    send_cell (record zero_cell { type = bytes "getbridge"; d0 = c.guard.id ++ b',' ∷ c.exit.id })

-- A loop such as the one at WAIT_EXIT: `seen i` is the name that it reads after `i` seconds. The
-- result is whether it leaves with a name, or `none` where the fuel ran out.
unfoldable pub wait_id : ℕ → ℕ → (ℕ → Bytes) → Option Bool
wait_id zero failed seen = none
wait_id (suc fuel) failed seen =
    let rest = wait_id fuel (failed + 1) seen in
    if seen failed is [] then (if ltb 10 failed then some false else rest) else some true

-- The requests for the keys of the three nodes, at the start of `SetupCircuit`.
unfoldable pub request_keys : Bytes → Bytes → Bytes → List Effect
request_keys guard bridge exit =
    send_cell (record zero_cell { type = bytes "getk"; d0 = guard })
    ∷ send_cell (record zero_cell { type = bytes "getk"; d0 = bridge })
    ∷ send_cell (record zero_cell { type = bytes "getk"; d0 = exit })
    ∷ []

-- `tk, ok := c.m.Keys[name]`; a missing key is the zero array.
key_or_zero : Option Bytes → Bytes × Bool
key_or_zero none = (replicate 32 0, false)
key_or_zero (some k) = (k, true)

-- One round at GETKEYS: the circuit with the keys that are there, and whether all are.
unfoldable pub take_keys : Client → Bytes → Bytes → Bytes → Circuit → Circuit × Bool
unfolding key_or_zero
take_keys m guard bridge exit c =
    let (tk1, ok1) = key_or_zero (lookup guard m.keys) in
    let (tk2, ok2) = key_or_zero (lookup bridge m.keys) in
    let (tk3, ok3) = key_or_zero (lookup exit m.keys) in
    (
      record c {
        guard = record c.guard { okey = tk1 };
        bridge = record c.bridge { okey = tk2 };
        exit = record c.exit { okey = tk3 };
      },
      ok1 && (ok2 && ok3),
    )

-- The text that asks a node to connect to another; the name goes into it as it is.
unfoldable pub connect_text : Bytes → Bytes
connect_text to = bytes "{\"type\":\"connect\",\"to\":\"" ++ (to ++ bytes "\"}")

module _ (codec : Codec) (nacl : Nacl) where
  -- The shared secret of the circuit and a node.
  share_key : Bytes → Node → Node
  share_key priv_k node = record node { tkey = nacl.precompute node.okey priv_k }

  unfoldable pub share_keys : Circuit → Circuit
  unfolding share_key
  share_keys c = record c {
    guard = share_key c.priv_k c.guard;
    bridge = share_key c.priv_k c.bridge;
    exit = share_key c.priv_k c.exit;
  }

  -- A message sealed for a node under its next nonce, as JSON. The error of `UseNonce` is not
  -- looked at here.
  unfoldable pub seal_next : Bytes → Node → Bytes → Node × Bytes
  seal_next pub_k node msg =
      let (nonce, text, good) = use_nonce codec.encode node.nonce in
      let node' : Node = record node { nonce = nonce } in
      (node', codec.print (enc_members (layer codec nacl pub_k node' msg)))

  -- The guard is asked to connect to the bridge. `none` is a guard that is not a peer.
  unfoldable pub connect_bridge : Client → Bytes → Bytes → Circuit → Option (Circuit × Effect)
  unfolding seal_next
  connect_bridge m guard bridge c = elim (get_peer m guard) [
    | none ↦ none
    | some p ↦
        let (node, text) = seal_next c.pub_k c.guard (connect_text bridge) in
        let dc = (m.peer p).dc in
        some (record c { dc = some dc; guard = record node { id = guard } }, send_text dc text)
  ]

  -- The bridge is asked, through the guard, to connect to the exit. Without a data channel the call
  -- of `SendText` panics.
  unfoldable pub connect_exit : Bytes → Bytes → Circuit → Outcome (Circuit × Effect)
  unfolding seal_next
  connect_exit bridge exit c =
      let (bridge_node, inner) = seal_next c.pub_k c.bridge (connect_text exit) in
      let fwd = codec.print (fwd_members (wrap codec nacl bridge inner)) in
      let (guard_node, text) = seal_next c.pub_k c.guard fwd in
      elim c.dc [
        | none ↦ panic
        | some dc ↦ done (
          record c {
            guard = guard_node;
            bridge = record bridge_node { id = bridge };
            exit = record c.exit { id = exit };
          },
          send_text dc text,
        )
      ]
