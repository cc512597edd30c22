-- ===== src/Examples/Replies.antt =====
-- A reply through the circuit of the examples.
use minedive.Common.{
  ℕ, zero, suc, ◌≡◌, refl, Bool, true, false, List, [], ◌∷◌, none, some, arith, Bytes, bytes, ◌is◌,
  is_refl, lookup, length, if◌then◌else◌, Outcome, done, panic,
}
use minedive.Browser.{Js, reply_l2}
use minedive.Browser.Answers.{IsResults, page_answer, reply_l2-Returns}
use minedive.Wire.{EncL1Msg, enc_members, read_l2, members}
use minedive.Client.State.{Client, send_text, respond}
use minedive.Client.Circuits.{sealed, seal_for, reply_circuit}
use minedive.Client.Circuits.Sending.{with_nonce}
use minedive.Client.Relay.{handle_l1_msg}
use minedive.Client.Decrypt.{dec_l1_msg}
use minedive.Client.Decrypt.Layers.{Agrees}
use minedive.Client.Replies.{BackPath, reply_circuit-Returns, reply_nonce_reused}
use minedive.Examples.Packages.{
  plain_codec, plain_codec_valid, plain_codec-IsCodec, plain_nacl, plain_nacl-IsNacl,
}
use minedive.Examples.Nodes.{env, node_of, circuit, circuit-IsReady, node-Agrees, hello}

-- The key of the circuit as it goes over the wire.
abbrev wire_key : Bytes
wire_key = plain_codec.encode circuit.pub_k

abbrev routed : ℕ → ℕ → Client
routed n p = record (node_of n) { routes = (wire_key, p) ∷ [] }

route-found : (p : ℕ) → lookup wire_key ((wire_key, p) ∷ []) ≡ some p
unfolding lookup
route-found p = rw (is_refl wire_key) refl

back_path : BackPath env circuit
unfolding lookup
back_path = record {
  exit = routed 3 4;
  bridge = routed 2 3;
  guard = routed 1 3;
  origin = record (node_of 9) {
    has_responder = true;
    circuit = λ z. record circuit { circuit_id = wire_key };
  };
  to_bridge = 4;
  to_guard = 3;
  to_origin = 3;
  own = 0;
  others = [];
  agrees = agrees;
  exit_route = route-found 4;
  bridge_route = route-found 3;
  guard_route = route-found 3;
  no_route = refl;
  first = refl;
  id = refl;
  key = refl;
}
  where
    agrees : Agrees plain_nacl circuit.priv_k circuit.pub_k circuit.exit (routed 3 4)
    agrees =
        let a = node-Agrees 3 circuit.exit.id circuit.exit.nonce in
        record {
          own_key = a.own_key;
          known_key = a.known_key;
          shared = a.shared;
          circuit_key = a.circuit_key;
          key_size = a.key_size;
        }

reply_circuit-Returns_example :
    (b : Bytes) × (reply_circuit plain_codec plain_nacl back_path.exit hello wire_key
        (plain_codec.encode circuit.exit.nonce)
      ≡ done (send_text (back_path.exit.peer back_path.to_bridge).dc b ∷ []))
    × (dec_l1_msg env 4 back_path.bridge b
        ≡ done (back_path.bridge, send_text (back_path.bridge.peer back_path.to_guard).dc b ∷ []))
    × (dec_l1_msg env 3 back_path.guard b
        ≡ done (back_path.guard, send_text (back_path.guard.peer back_path.to_origin).dc b ∷ []))
    × (dec_l1_msg env 3 back_path.origin b ≡ handle_l1_msg env back_path.origin 3 hello none)
reply_circuit-Returns_example =
    reply_circuit-Returns env plain_codec-IsCodec plain_nacl-IsNacl circuit back_path hello 4 3 3
      circuit-IsReady.exit

reply_nonce_reused_example :
    (n : Bytes) × (o o' : EncL1Msg) × (reply_circuit plain_codec plain_nacl back_path.exit hello
        wire_key
        (plain_codec.encode circuit.exit.nonce)
      ≡ done (
          send_text (back_path.exit.peer back_path.to_bridge).dc (plain_codec.print (enc_members o))
          ∷ []))
    × (seal_for plain_codec plain_nacl circuit.pub_k circuit.exit (bytes "next")
        ≡ sealed (with_nonce circuit.exit n) (plain_codec.print (enc_members o')))
    × (o.ct ≡ plain_codec.encode (plain_nacl.seal hello n circuit.exit.tkey))
    × (o'.ct ≡ plain_codec.encode (plain_nacl.seal (bytes "next") n circuit.exit.tkey))
reply_nonce_reused_example =
    reply_nonce_reused env plain_codec-IsCodec plain_nacl-IsNacl circuit back_path.exit
      back_path.to_bridge hello (bytes "next") back_path.agrees circuit-IsReady.exit (omega arith)
      back_path.exit_route

-- The values of a page: texts, lists of texts, and objects with a query and texts.
data PageValue : Type 0 where
  str : Bytes → PageValue
  arr : List Bytes → PageValue
  obj : Bytes → List Bytes → PageValue

item : List Bytes → ℕ → PageValue
item [] j = str (bytes "<undefined>")
item (t ∷ ts) zero = str t
item (t ∷ ts) (suc j) = item ts j

page_is_object : PageValue → Bool
page_is_object (str s) = false
page_is_object _ = true

page_string : PageValue → Bytes
page_string (str s) = s
page_string _ = bytes "<object>"

page_get : PageValue → Bytes → Outcome PageValue
page_get (obj q ts) k = done (if k is bytes "q" then str q else arr ts)
page_get (arr ts) k = done (str (bytes "<undefined>"))
page_get (str s) k = panic

page_length : PageValue → Outcome ℕ
page_length (arr ts) = done (length ts)
page_length (obj q ts) = done 0
page_length (str s) = panic

page_index : PageValue → ℕ → Outcome PageValue
unfolding item
page_index (arr ts) j = done (item ts j)
page_index (obj q ts) j = done (str (bytes "<undefined>"))
page_index (str s) j = panic

page : Js PageValue
page = record {
  is_object = page_is_object;
  string = page_string;
  get = page_get;
  length_of = page_length;
  index = page_index;
}

abbrev found : List Bytes
found = bytes "https://nlnet.nl/" ∷ bytes "http://example.com/" ∷ []

found-IsResults : IsResults page (obj hello found) hello found
unfolding page page_is_object page_get page_string page_length page_index item bytes ◌is◌
found-IsResults = record {
  object = refl;
  q_value = str hello;
  list = arr found;
  get_q = refl;
  get_text = refl;
  q_text = refl;
  size = refl;
  items = (
    (str (bytes "https://nlnet.nl/"), refl, refl),
    ((str (bytes "http://example.com/"), refl, refl), tt),
  );
}

reply_l2-Returns_example :
    (b text : Bytes) × (reply_l2 page plain_codec plain_nacl (some back_path.exit) (
        str (bytes "k")
        ∷ str wire_key
        ∷ str (plain_codec.encode circuit.exit.nonce)
        ∷ obj hello found
        ∷ [])
      ≡ done (send_text (back_path.exit.peer back_path.to_bridge).dc b ∷ []))
    × (dec_l1_msg env 4 back_path.bridge b
        ≡ done (back_path.bridge, send_text (back_path.bridge.peer back_path.to_guard).dc b ∷ []))
    × (dec_l1_msg env 3 back_path.guard b
        ≡ done (back_path.guard, send_text (back_path.guard.peer back_path.to_origin).dc b ∷ []))
    × (dec_l1_msg env 3 back_path.origin b ≡ done (back_path.origin, respond text ∷ []))
    × (read_l2 (members plain_codec text) ≡ page_answer hello found)
unfolding back_path page page_is_object page_string
reply_l2-Returns_example =
    reply_l2-Returns page env plain_codec-IsCodec plain_nacl-IsNacl circuit back_path
      (str (bytes "k")) (str wire_key) (str (plain_codec.encode circuit.exit.nonce))
      (obj hello found) hello found 4 3 3 circuit-IsReady.exit refl refl refl refl refl
      found-IsResults (plain_codec_valid _) (plain_codec_valid _, (plain_codec_valid _, tt)) refl
