-- ===== src/Examples/Connecting.antt =====
-- The steps of SetupCircuit on the circuit of the examples.
use minedive.Common.{ℕ, ◌≡◌, refl, true, false, [], ◌∷◌, some, Bytes, bytes, ◌is◌, lookup, done}
use minedive.Client.State.{Client, Circuit, send_text, dial_peer}
use minedive.Client.Peers.{get_peer}
use minedive.Client.Circuits.Sending.{IsNonce}
use minedive.Client.Circuits.Building.{connect_bridge, connect_exit}
use minedive.Client.Decrypt.{add_route, dec_l1_msg}
use minedive.Client.Decrypt.Layers.{Agrees}
use minedive.Client.Onion.Connecting.{connect_bridge-Dials, connect_exit-Dials}
use minedive.Examples.Packages.{plain_nacl, plain_nacl-IsNacl}
use minedive.Examples.Texts.{
  text_codec, text_codec-IsCodec, text_codec_valid, text_codec_bridge, text_codec_exit,
}
use minedive.Examples.Nodes.{node_of, circuit, circuit-IsReady, known_as, key_of, node-Agrees}
use minedive.Examples.Confirming.{text_env, wire_key}

-- A node of the examples that is connected to none but those given.
abbrev alone : ℕ → Client
alone n = record (node_of n) { l1_peers = [] }

alone-Agrees :
    (n : ℕ) (id nonce : Bytes)
    → Agrees plain_nacl (key_of 9) (plain_nacl.public_of (key_of 9)) (known_as n id nonce) (alone n)
alone-Agrees n id nonce =
    let a = node-Agrees n id nonce in
    record {
      own_key = a.own_key;
      known_key = a.known_key;
      shared = a.shared;
      circuit_key = a.circuit_key;
      key_size = a.key_size;
    }

abbrev origin : Client
origin = record (node_of 9) { l1_peers = (bytes "g", 5) ∷ [] }

connect_bridge-Dials_example :
    (c' : Circuit) × (b : Bytes) × (connect_bridge text_codec plain_nacl origin
        (bytes "g")
        (bytes "b")
        circuit
      ≡ some (c', send_text 5 b))
    × (c'.dc ≡ some 5)
    × IsNonce c'.guard.nonce
    × (dec_l1_msg text_env 3 (alone 1) b
        ≡ done (add_route wire_key 3 (alone 1), dial_peer (bytes "b") [] true false ∷ []))
unfolding get_peer lookup ◌is◌ bytes
connect_bridge-Dials_example =
    connect_bridge-Dials text_env text_codec-IsCodec plain_nacl-IsNacl origin (bytes "g")
      (bytes "b") circuit 5 (alone 1) 3 refl (alone-Agrees 1 _ _) circuit-IsReady.guard
      text_codec_bridge refl

connect_exit-Dials_example :
    (c' : Circuit) × (b2 b1 : Bytes) × (connect_exit text_codec plain_nacl
        (bytes "b")
        (bytes "e")
        (record circuit { dc = some 5 })
      ≡ done (c', send_text 5 b2))
    × (c'.bridge.id ≡ bytes "b")
    × (c'.exit.id ≡ bytes "e")
    × IsNonce c'.guard.nonce
    × IsNonce c'.bridge.nonce
    × (dec_l1_msg text_env 3 (node_of 1) b2
        ≡ done (add_route wire_key 3 (node_of 1), send_text 3 b1 ∷ []))
    × (dec_l1_msg text_env 3 (alone 2) b1
        ≡ done (add_route wire_key 3 (alone 2), dial_peer (bytes "e") [] true false ∷ []))
unfolding get_peer lookup ◌is◌ bytes
connect_exit-Dials_example =
    connect_exit-Dials text_env text_codec-IsCodec plain_nacl-IsNacl 5 (bytes "b") (bytes "e")
      (record circuit { dc = some 5 }) (node_of 1) (alone 2) 3 3 3 refl (node-Agrees 1 _ _)
      (alone-Agrees 2 _ _) circuit-IsReady.guard circuit-IsReady.bridge (text_codec_valid _) refl
      text_codec_exit refl
