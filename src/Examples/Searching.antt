-- ===== src/Examples/Searching.antt =====
-- minecli on a node whose circuit is "OK": what is typed there.
use minedive.Common.{
  ◌≡◌, ◌↔◌, refl, subst, true, false, [], ◌∷◌, ◌++◌, none, some, Bytes, bytes, ◌is◌, lookup, done,
  panic, inl, inr, arith, replicate,
}
use minedive.Wire.{l2_members}
use minedive.Client.State.{Client, Circuit, send_text, search, respond}
use minedive.Client.Peers.{get_peer}
use minedive.Client.Circuits.Sending.{IsReady}
use minedive.Client.Dialling.{Dialled, dial}
use minedive.Client.Dialling.Registering.{net_of, dial_registers}
use minedive.Client.Decrypt.{add_route, dec_l1_msg}
use minedive.Client.Onion.{Path3}
use minedive.Client.Onion.Confirming.{IsUsable}
use minedive.Minecli.{searcher, responder, canned_answer}
use minedive.Minecli.Line.{
  words_of, command_of, command_of_wsraw, is_blank, IsWord, unwords, words_of-unwords,
}
use minedive.Minecli.Loop.{World, ready, effect, run_line, cmd_loop}
use minedive.Minecli.Loop.Table.{dials, stops, CanSend, cli_of}
use minedive.Minecli.Loop.Stops.{run_line_panics}
use minedive.Minecli.Loop.Typed.{world_of, typed_search, typed_search-Answered}
use minedive.Minecli.Loop.Language.{typed_searchv2, typed_searchv2-Travels}
use minedive.Minecli.Loop.Session.{Ends, session, session-Avoids}
use minedive.Examples.Packages.{plain_codec-IsCodec, plain_nacl, plain_nacl-IsNacl}
use minedive.Examples.Texts.{text_codec, text_codec-IsCodec, text_codec_valid, text_codec_searchv2}
use minedive.Examples.Nodes.{node_of, circuit, circuit-IsReady, node-Agrees}
use minedive.Examples.Confirming.{text_env, wire_key}
use minedive.Examples.Servers.{env as server_env, server}

abbrev confirmed : Circuit
confirmed = record circuit { circuit_id = wire_key; state = bytes "OK" }

path : Path3 text_env confirmed
unfolding lookup get_peer bytes ◌is◌
path = record {
  guard = node_of 1;
  bridge = node_of 2;
  exit = node_of 3;
  from_origin = 3;
  from_guard = 3;
  from_bridge = 4;
  to_bridge = 3;
  to_exit = 4;
  guard_agrees = node-Agrees 1 _ _;
  bridge_agrees = node-Agrees 2 _ _;
  exit_agrees = node-Agrees 3 _ _;
  guard_knows = refl;
  bridge_knows = refl;
  bridge_id = text_codec_valid _;
  exit_id = text_codec_valid _;
}

confirmed-IsReady : IsReady confirmed
confirmed-IsReady = record {
  guard = circuit-IsReady.guard;
  bridge = circuit-IsReady.bridge;
  exit = circuit-IsReady.exit;
}

abbrev asker : Client
asker = record (node_of 9) { has_responder = true; circuit = λ z. confirmed }

new : IsUsable text_env confirmed path asker
unfolding lookup path
new = record {
  own = 0;
  others = [];
  guard_free = inl refl;
  bridge_free = inl refl;
  exit_free = inl refl;
  no_route = refl;
  first = refl;
  id = refl;
  key = refl;
}

abbrev world : World
world = record {
  net = net_of server_env server 1 (replicate 32 7) (replicate 32 9);
  nacl = plain_nacl;
  creation = record { circuit_keys = none; later = λ c. c; made = false };
  waits =
      record { asleep = λ c. c; others = λ n c. c }
      ∷ record {
        asleep = λ c. record c { l1_peers = (bytes "a", 1) ∷ (bytes "b", 2) ∷ [] };
        others = λ n c. c;
      }
      ∷ [];
  sdp = [];
  order = [];
  read_cell = λ s. none;
}

weather-IsWord : IsWord (bytes "weather")
unfolding bytes is_blank
weather-IsWord = ((λ e. cc), (refl, (refl, (refl, (refl, (refl, (refl, (refl, tt))))))))

en-IsWord : IsWord (bytes "en")
unfolding bytes is_blank
en-IsWord = ((λ e. cc), (refl, (refl, tt)))

rain-IsWord : IsWord (bytes "rain")
unfolding bytes is_blank
rain-IsWord = ((λ e. cc), (refl, (refl, (refl, (refl, tt)))))

wsraw-IsWord : IsWord (bytes "wsraw")
unfolding bytes is_blank
wsraw-IsWord = ((λ e. cc), (refl, (refl, (refl, (refl, (refl, tt))))))

typed_search-Answered_example :
    let guard = add_route wire_key 3 path.guard in
    let bridge = add_route wire_key 3 path.bridge in
    let exit = add_route wire_key 4 path.exit in
    let answer = text_codec.print (l2_members (canned_answer (bytes "weather"))) in
    (asker' : Client) × (b3 b2 b1 b nonce : Bytes) × (run_line
        (world_of text_env world)
        (cli_of (some asker) false [])
        (typed_search (bytes "weather") (bytes "en"))
      ≡ done (ready (cli_of (some asker') false []), effect (send_text 7 b3) ∷ []))
    × (dec_l1_msg text_env 3 path.guard b3 ≡ done (guard, send_text (path.guard.peer 3).dc b2 ∷ []))
    × (dec_l1_msg text_env 3 path.bridge b2
        ≡ done (bridge, send_text (path.bridge.peer 4).dc b1 ∷ []))
    × (dec_l1_msg text_env 4 path.exit b1
        ≡ done (exit, search wire_key (bytes "weather") (bytes "en") wire_key nonce ∷ []))
    × (searcher text_codec plain_nacl exit (bytes "weather") wire_key nonce
        ≡ done (send_text (exit.peer 4).dc b ∷ []))
    × (dec_l1_msg text_env 4 bridge b ≡ done (bridge, send_text (bridge.peer 3).dc b ∷ []))
    × (dec_l1_msg text_env 3 guard b ≡ done (guard, send_text (guard.peer 3).dc b ∷ []))
    × (dec_l1_msg text_env 3 asker' b ≡ done (asker', respond answer ∷ []))
    × (responder text_codec answer ≡ (canned_answer (bytes "weather")).text)
unfolding path new
typed_search-Answered_example =
    typed_search-Answered text_env text_codec-IsCodec plain_nacl-IsNacl confirmed path asker
      (bytes "weather") (bytes "en") 7 4 3 3 world false [] new refl confirmed-IsReady refl refl
      (text_codec_valid _) (text_codec_valid _) refl refl weather-IsWord en-IsWord

typed_searchv2-Travels_example :
    let guard = add_route wire_key 3 path.guard in
    let bridge = add_route wire_key 3 path.bridge in
    let exit = add_route wire_key 4 path.exit in
    (asker' : Client) × (b3 b2 b1 nonce : Bytes) × (run_line
        (world_of text_env world)
        (cli_of (some asker) false [])
        (typed_searchv2 (bytes "rain"))
      ≡ done (ready (cli_of (some asker') false []), effect (send_text 7 b3) ∷ []))
    × (dec_l1_msg text_env 3 path.guard b3 ≡ done (guard, send_text (path.guard.peer 3).dc b2 ∷ []))
    × (dec_l1_msg text_env 3 path.bridge b2
        ≡ done (bridge, send_text (path.bridge.peer 4).dc b1 ∷ []))
    × (dec_l1_msg text_env 4 path.exit b1
        ≡ done (exit, search wire_key (bytes "rain") [] wire_key nonce ∷ []))
unfolding path
typed_searchv2-Travels_example =
    typed_searchv2-Travels text_env text_codec-IsCodec plain_nacl-IsNacl confirmed path asker 0 []
      (bytes "rain") 7 world false [] refl refl confirmed-IsReady refl rain-IsWord
      text_codec_searchv2 refl

abbrev lone_wsraw : Bytes
lone_wsraw = unwords (bytes "wsraw") [] ++ b'\n' ∷ []

asker-CanSend : (c : Client) → some asker ≡ some c → CanSend c
asker-CanSend c e =
    let same : asker ≡ c = cc in
    subst CanSend same (record {
      own = 0;
      others = [];
      dc = 7;
      first = refl;
      open_dc = refl;
      is_ready = confirmed-IsReady;
    })

wsraw_keeps : dials (command_of (words_of lone_wsraw).0) ≡ false
unfolding dials
wsraw_keeps = rw (words_of-unwords (bytes "wsraw") [] wsraw-IsWord tt, command_of_wsraw) refl

run_line_panics_example :
    (run_line world (cli_of (some asker) false []) lone_wsraw ≡ panic)
    ↔ (stops world (some asker) (command_of (words_of lone_wsraw).0) (words_of lone_wsraw).1 ≡ true)
run_line_panics_example =
    run_line_panics world (some asker) false [] lone_wsraw (λ c e. inr (asker-CanSend c e))
      wsraw_keeps

dialled : (d : Dialled) × (dial world.net ≡ done d)
unfolding bytes
dialled =
    let (d, s', reply, e, given, pk, priv_k, h) =
      dial_registers server_env server 1 (replicate 32 7) (replicate 32 9) plain_codec-IsCodec refl
        refl refl (omega arith) (omega arith) in
    (d, e)

session-Avoids_example :
    Ends world dialled.0
      (bytes "rain" ∷ [])
      (cmd_loop (cli_of none false []) (session world (bytes "rain" ∷ [])))
session-Avoids_example =
    session-Avoids world dialled.0 (bytes "rain" ∷ []) dialled.1 (rain-IsWord, tt)
      (((λ n c h. h), tt), (((λ n c h. h), tt), tt))
