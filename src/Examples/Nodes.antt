-- ===== src/Examples/Nodes.antt =====
-- Nodes and circuits at concrete states.
use minedive.Common.{
  ℕ, ◌≡◌, refl, ap, inl, inr, true, false, [], ◌∷◌, none, some, arith, Bytes, bytes, ◌is◌, lookup,
  replicate, length, done,
}
use minedive.Client.State.{Client, Node, Circuit, send_text, zero_node}
use minedive.Client.Peers.{get_peer}
use minedive.Client.Circuits.{send}
use minedive.Client.Circuits.Sending.{
  IsReady, Expires, Advanced, with_nonces, onion, send_total, send_advances,
}
use minedive.Client.Relay.{Env}
use minedive.Client.Decrypt.Layers.{Agrees}
use minedive.Client.Onion.{Path3, Travels, send-Travels}
use minedive.Examples.Packages.{
  plain_codec, plain_codec-IsCodec, plain_codec_valid, plain_nacl, plain_nacl_public,
  plain_nacl-IsNacl,
}

abbrev pub env : Env
env = record {
  codec = plain_codec;
  nacl = plain_nacl;
  order = [];
  alias_order = [];
  k2 = [];
  k3 = [];
}

abbrev pub key_of : ℕ → Bytes
key_of n = replicate 32 n

-- The node with private key `key_of n`, which knows the peer 3 as "b" and the peer 4 as "e".
abbrev pub node_of : ℕ → Client
node_of n = record {
  tid = n ∷ [];
  priv_k = key_of n;
  pk = plain_nacl.public_of (key_of n);
  has_searcher = true;
  has_responder = false;
  l1_peers = (bytes "b", 3) ∷ (bytes "e", 4) ∷ [];
  l2_peers = [];
  keys = [];
  circuits = 0 ∷ [];
  routes = [];
  peer = λ p. record { name = p ∷ []; alias = p ∷ []; dc = p; exit = false; sdp = [] };
  l2 = λ p. record {
    name = [];
    gw = none;
    ononce = replicate 24 0;
    msg_ignored = 0;
    state = [];
    k = key_of 0;
    pk = key_of 0;
  };
  circuit = λ p. record {
    circuit_id = p ∷ [];
    dc = none;
    state = [];
    guard = zero_node;
    bridge = zero_node;
    exit = zero_node;
    pub_k = key_of 9;
    priv_k = key_of 9;
  };
  free = 5;
}

-- What the circuit knows of the node of private key `key_of n`.
abbrev pub known_as : ℕ → Bytes → Bytes → Node
known_as n id nonce = record {
  id = id;
  okey = plain_nacl.public_of (key_of n);
  tkey = plain_nacl.precompute (plain_nacl.public_of (key_of n)) (key_of 9);
  nonce = nonce;
}

-- The nonce of the bridge is the last one.
abbrev pub circuit : Circuit
circuit = record {
  circuit_id = key_of 9;
  dc = some 7;
  state = bytes "OK";
  guard = known_as 1 (bytes "g") (replicate 24 0);
  bridge = known_as 2 (bytes "b") (replicate 24 255);
  exit = known_as 3 (bytes "e") (replicate 24 1);
  pub_k = plain_nacl.public_of (key_of 9);
  priv_k = key_of 9;
}

pub circuit-IsReady : IsReady circuit
circuit-IsReady = record {
  exit = record { size = refl; all_bytes = omega arith };
  bridge = record { size = refl; all_bytes = omega arith };
  guard = record { size = refl; all_bytes = omega arith };
}

key_size : length (plain_nacl.public_of (key_of 9)) ≡ 32
key_size = ap length (plain_nacl_public (key_of 9))

pub node-Agrees :
    (n : ℕ) (id nonce : Bytes)
    → Agrees plain_nacl
        (key_of 9)
        (plain_nacl.public_of (key_of 9))
        (known_as n id nonce)
        (node_of n)
node-Agrees n id nonce = record {
  own_key = refl;
  known_key = refl;
  shared = refl;
  circuit_key = refl;
  key_size = key_size;
}

path : Path3 env circuit
unfolding lookup get_peer bytes ◌is◌
path = record {
  guard = node_of 1;
  bridge = node_of 2;
  exit = node_of 3;
  from_origin = 3;
  from_guard = 3;
  from_bridge = 4;
  to_bridge = 3;
  to_exit = 4;
  guard_agrees = node-Agrees 1 _ _;
  bridge_agrees = node-Agrees 2 _ _;
  exit_agrees = node-Agrees 3 _ _;
  guard_knows = refl;
  bridge_knows = refl;
  bridge_id = plain_codec_valid _;
  exit_id = plain_codec_valid _;
}

abbrev pub hello : Bytes
hello = bytes "{\"type\":\"test\"}"

send-Travels_example :
    (c' : Circuit) × (b3 : Bytes) × (send plain_codec plain_nacl 4 circuit hello
      ≡ some (done (c', send_text 7 b3)))
    × IsReady c'
    × Travels env circuit path b3 hello c'.exit.nonce
send-Travels_example =
    send-Travels env plain_codec-IsCodec plain_nacl-IsNacl circuit path hello 7 circuit-IsReady refl

send_total_example :
    (e b g : Bytes) × IsReady (with_nonces circuit e b g)
    × (send plain_codec plain_nacl 4 circuit hello
        ≡ some (
            done (
              with_nonces circuit e b g,
              send_text 7 (onion plain_codec plain_nacl (with_nonces circuit e b g) hello),
            )))
send_total_example = send_total plain_codec plain_nacl circuit hello 7 circuit-IsReady refl

-- A circuit that has sent nothing yet.
abbrev fresh_circuit : Circuit
fresh_circuit = record circuit { bridge = known_as 2 (bytes "b") (replicate 24 0) }

fresh_circuit-IsReady : IsReady fresh_circuit
fresh_circuit-IsReady = record {
  exit = record { size = refl; all_bytes = omega arith };
  bridge = record { size = refl; all_bytes = omega arith };
  guard = record { size = refl; all_bytes = omega arith };
}

fresh_circuit_lasts : ¬ Expires fresh_circuit
fresh_circuit_lasts (inl e) = absurd (omega arith)
fresh_circuit_lasts (inr (inl e)) = absurd (omega arith)
fresh_circuit_lasts (inr (inr e)) = absurd (omega arith)

send_advances_example :
    (e b g : Bytes) × Advanced fresh_circuit e b g
    × (send plain_codec plain_nacl 1 fresh_circuit hello
        ≡ some (
            done (
              with_nonces fresh_circuit e b g,
              send_text 7 (onion plain_codec plain_nacl (with_nonces fresh_circuit e b g) hello),
            )))
send_advances_example =
    send_advances plain_codec plain_nacl fresh_circuit hello 7 fresh_circuit-IsReady refl
      fresh_circuit_lasts
