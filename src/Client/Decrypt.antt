-- ===== src/Client/Decrypt.antt =====
-- l1peer.go: `DecL1Msg`, the entry of every message of a data channel.
pub mod Layers
pub mod Direct
pub mod Returns
use minedive.Common.{
  ℕ, Bool, true, false, List, [], ◌∷◌, Option, none, some, Bytes, bytes, ◌is◌, if◌then◌else◌,
  replicate, Dict, lookup, insert, Outcome, done, panic, ◌>>=◌,
}
use minedive.Codec.{Codec, Nacl, Decoded, slice_to, copy}
use minedive.Server.Aliases.{or_panic}
use minedive.Wire.{EncL1Msg, read_enc, members}
use minedive.Client.State.{Client, L1Peer, Circuit, Effect, send_text}
use minedive.Client.Relay.{Env, Handled, handle_l1_msg}

-- The loop over `Circuits`: the first of that id.
find_circuit : Client → Bytes → List ℕ → Option ℕ
find_circuit cli id [] = none
find_circuit cli id (z ∷ zs) =
    if (cli.circuit z).circuit_id is id then some z else find_circuit cli id zs

-- `Routes[m.Key] = p` where the key has no route.
unfoldable pub add_route : Bytes → ℕ → Client → Client
add_route key p cli = elim (lookup key cli.routes) [
  | none ↦ record cli { routes = insert key p cli.routes }
  | some q ↦ cli
]

module _ (env : Env) (p : ℕ) where
  -- What is decrypted goes to `handleL1Msg`; a failure is logged only.
  pass_on : Client → Option EncL1Msg → Option Bytes → Handled
  pass_on cli enc none = done (cli, [])
  pass_on cli enc (some decrypted) = handle_l1_msg env cli p decrypted enc

  -- "encrep" for a circuit of this node.
  open_reply : Client → EncL1Msg → Circuit → Handled
  unfolding pass_on
  open_reply cli m circuit =
      let nonce = env.codec.decode m.nonce in
      let ct = env.codec.decode m.ct in
      let opened = (do
        n ← or_panic (slice_to 24 nonce)
        if ct.good
            then pass_on cli none
                (env.nacl.unseal ct.slice (copy (replicate 24 0) n) circuit.exit.tkey)
            else done (cli, [])) in
      if nonce.good then opened else done (cli, [])

  -- "encrep": along the route of the key, if there is one.
  handle_encrep : Client → EncL1Msg → Bytes → Handled
  unfolding open_reply find_circuit
  handle_encrep cli m msg = elim (lookup m.tpk cli.routes) [
    | some tgt ↦ done (cli, send_text (cli.peer tgt).dc msg ∷ [])
    | none ↦ elim (find_circuit cli m.tpk cli.circuits) [
      | none ↦ done (cli, [])
      | some z ↦ open_reply cli m (cli.circuit z)
    ]
  ]

  -- "enc", once the route is noted and the target is this node. The error of decoding the key is
  -- not looked at.
  open_enc : Client → EncL1Msg → Handled
  unfolding pass_on
  open_enc cli m =
      let nonce = env.codec.decode m.nonce in
      let ct = env.codec.decode m.ct in
      let opened = (do
        n ← or_panic (slice_to 24 nonce)
        let keyed = (do
          key ← or_panic (slice_to 32 (env.codec.decode m.key))
          let k = env.nacl.precompute (copy (replicate 32 0) key) cli.priv_k
          pass_on cli (some m) (env.nacl.unseal ct.slice (copy (replicate 24 0) n) k))
        if ct.good then keyed else done (cli, [])) in
      if nonce.good then opened else done (cli, [])

  handle_enc : Client → EncL1Msg → Handled
  handle_enc cli m =
      let cli' = add_route m.key p cli in
      let tpk = env.codec.decode m.tpk in
      if tpk.good
      then (if tpk.slice is cli.pk then open_enc cli' m else done (cli', []))
      else done (cli', [])

  pub dec_l1_msg : Client → Bytes → Handled
  dec_l1_msg cli msg =
      let m = read_enc (members env.codec msg) in
      if m.type is bytes "encrep"
      then handle_encrep cli m msg
      else if m.type is bytes "enc"
      then handle_enc cli m
      else handle_l1_msg env cli p msg none
