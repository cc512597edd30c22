-- ===== src/Examples/Confirming.antt =====
-- The test of the circuit of the examples.
use minedive.Common.{◌≡◌, refl, [], ◌∷◌, some, Bytes, bytes, ◌is◌, lookup, done, panic, inl}
use minedive.Client.State.{Client, Circuit, send_text, put_circuit}
use minedive.Client.Peers.{get_peer}
use minedive.Client.Circuits.{send}
use minedive.Client.Relay.{Env}
use minedive.Client.Relay.Tests.{test_text}
use minedive.Client.Decrypt.{add_route, dec_l1_msg}
use minedive.Client.Decrypt.Direct.{direct_test_panics}
use minedive.Client.Onion.{Path3}
use minedive.Client.Onion.Confirming.{IsUsable, send_test-Confirms}
use minedive.Examples.Packages.{plain_nacl, plain_nacl-IsNacl}
use minedive.Examples.Texts.{
  text_codec, text_codec-IsCodec, text_codec_valid, text_codec-ReadsTests,
}
use minedive.Examples.Nodes.{node_of, circuit, circuit-IsReady, node-Agrees}

abbrev pub text_env : Env
text_env = record {
  codec = text_codec;
  nacl = plain_nacl;
  order = [];
  alias_order = [];
  k2 = [];
  k3 = [];
}

path : Path3 text_env circuit
unfolding lookup get_peer bytes ◌is◌
path = record {
  guard = node_of 1;
  bridge = node_of 2;
  exit = node_of 3;
  from_origin = 3;
  from_guard = 3;
  from_bridge = 4;
  to_bridge = 3;
  to_exit = 4;
  guard_agrees = node-Agrees 1 _ _;
  bridge_agrees = node-Agrees 2 _ _;
  exit_agrees = node-Agrees 3 _ _;
  guard_knows = refl;
  bridge_knows = refl;
  bridge_id = text_codec_valid _;
  exit_id = text_codec_valid _;
}

abbrev pub wire_key : Bytes
wire_key = text_codec.encode circuit.pub_k

abbrev origin : Client
origin = record (node_of 9) { circuit = λ z. record circuit { circuit_id = wire_key } }

new : IsUsable text_env circuit path origin
unfolding lookup path
new = record {
  own = 0;
  others = [];
  guard_free = inl refl;
  bridge_free = inl refl;
  exit_free = inl refl;
  no_route = refl;
  first = refl;
  id = refl;
  key = refl;
}

send_test-Confirms_example :
    let guard = add_route wire_key 3 path.guard in
    let bridge = add_route wire_key 3 path.bridge in
    let exit = add_route wire_key 4 path.exit in
    (c' : Circuit) × (b3 b2 b1 b : Bytes) × (send text_codec plain_nacl 4 circuit test_text
      ≡ some (done (c', send_text 7 b3)))
    × (dec_l1_msg text_env 3 path.guard b3 ≡ done (guard, send_text (path.guard.peer 3).dc b2 ∷ []))
    × (dec_l1_msg text_env 3 path.bridge b2
        ≡ done (bridge, send_text (path.bridge.peer 4).dc b1 ∷ []))
    × (dec_l1_msg text_env 4 path.exit b1 ≡ done (exit, send_text (exit.peer 4).dc b ∷ []))
    × (dec_l1_msg text_env 4 bridge b ≡ done (bridge, send_text (bridge.peer 3).dc b ∷ []))
    × (dec_l1_msg text_env 3 guard b ≡ done (guard, send_text (guard.peer 3).dc b ∷ []))
    × (dec_l1_msg text_env 3 origin b
        ≡ done (
          put_circuit 0 (record circuit { circuit_id = wire_key; state = bytes "OK" }) origin,
          [],
        ))
unfolding path new
send_test-Confirms_example =
    send_test-Confirms text_env text_codec-IsCodec plain_nacl-IsNacl text_codec-ReadsTests circuit
      path origin 7 4 3 3 new circuit-IsReady refl

direct_test_panics_example : dec_l1_msg text_env 3 (node_of 1) test_text ≡ panic
direct_test_panics_example = direct_test_panics text_env 3 (node_of 1) text_codec-ReadsTests
