-- ===== src/Minecli/Loop/Language.antt =====
-- The command "searchv2" of minecli, whose text is written by hand.
use minedive.Common.{
  ℕ, ◌≡◌, refl, ap, ◌∙◌, Bool, true, List, [], ◌∷◌, ◌++◌, some, Bytes, bytes, ◌is◌, Dict, Outcome,
  done, lookup, inl, inr, Option-cases,
}
use minedive.Codec.{Value, text, IsCodec, IsNacl}
use minedive.Wire.{read_min, read_l2}
use minedive.Client.State.{Client, Circuit, Effect, send_text, search, put_circuit}
use minedive.Client.Relay.Searches.{handle_l1_msg_search_text}
use minedive.Client.Circuits.{send}
use minedive.Client.Circuits.Sending.{IsReady}
use minedive.Client.Relay.{Env}
use minedive.Client.Decrypt.{add_route, dec_l1_msg}
use minedive.Client.Onion.{Path3, send-Travels}
use minedive.Minecli.Line.{command_of_searchv2, is_blank, IsWord, unwords, words_of-unwords}
use minedive.Minecli.Loop.{
  World, ready, effect, run_line, run_command, run_searchv2, send_on, send_first, with_client,
  written, search_line,
}
use minedive.Minecli.Loop.Table.{cli_of}
use minedive.Minecli.Loop.Typed.{world_of}

-- The members that `json.Unmarshal` reads in the text of "searchv2".
abbrev pub searchv2_members : Bytes → Dict Value
searchv2_members q =
    (bytes "type", text (bytes "search"))
    ∷ (bytes "q", text q)
    ∷ (bytes "lang", text (bytes "it"))
    ∷ []

abbrev pub typed_searchv2 : Bytes → Bytes
typed_searchv2 q = unwords (bytes "searchv2") (q ∷ []) ++ b'\n' ∷ []

searchv2_IsWord : IsWord (bytes "searchv2")
unfolding bytes is_blank
searchv2_IsWord = (λ e. cc, (refl, (refl, (refl, (refl, (refl, (refl, (refl, (refl, tt)))))))))

run_line-searchv2 :
    (w : World) (c : Client) (v : Bool) (avoided : List Bytes) (q : Bytes)
    → IsWord q
    → run_line w (cli_of (some c) v avoided) (typed_searchv2 q)
      ≡ written (cli_of (some c) v avoided) (send_first w c (search_line q) c.circuits)
unfolding run_line run_command run_searchv2 send_on with_client ◌is◌ bytes
run_line-searchv2 w c v avoided q h =
    rw
      (
        words_of-unwords (bytes "searchv2") (q ∷ []) searchv2_IsWord (h, tt),
        run_line,
        command_of_searchv2,
      )
      refl

send_first_own :
    (w : World) (node : Client) (own : ℕ) (others : List ℕ) (msg : Bytes) (z : Circuit) (b : Bytes)
    (dc : ℕ)
    → node.circuits ≡ own ∷ others
    → send w.net.codec w.nacl 4 (node.circuit own) msg ≡ some (done (z, send_text dc b))
    → send_first w node msg node.circuits
      ≡ some (done (put_circuit own z node, send_text dc b ∷ []))
unfolding send_first
send_first_own w node own others msg z b dc first sent =
    ap (send_first w node msg) first ∙ rw (sent, send_first) refl

read_searchv2 :
    (q : Bytes)
    → (read_min (searchv2_members q)).type ≡ bytes "search"
      × ((read_l2 (searchv2_members q)).query ≡ q)
      × ((read_l2 (searchv2_members q)).lang ≡ [])
unfolding read_min read_l2 ◌is◌ bytes
read_searchv2 q = (refl, refl, refl)

-- The handler calls `Searcher`.
abbrev calls : Client → Bytes → Bytes → Bytes → Bytes → Outcome (Client × List Effect)
calls exit key q lang nonce = done (exit, search key q lang key nonce ∷ [])

searcher_stays :
    (key : Bytes) (p : ℕ) (cli : Client)
    → cli.has_searcher ≡ true
    → (add_route key p cli).has_searcher ≡ true
unfolding add_route
searcher_stays key p cli searches = elim (Option-cases (lookup key cli.routes)) [
  | inl fresh ↦ rw (fresh, add_route) searches
  | inr (q, routed) ↦ rw (routed, add_route) searches
]

module _ (env : Env) (codec_laws : IsCodec env.codec) (nacl_laws : IsNacl env.nacl) where
  -- The language of "searchv2" is lost. The line makes minecli write one text, which goes over the
  -- guard and the bridge to the exit of the first circuit; and the exit calls its `Searcher` with
  -- the query and with an empty language, where the text that minecli sends has "it". For a word
  -- that JSON reads in that text as it is; the circuit is ready, on a path of nodes that hold the
  -- keys the circuit has for them, where the guard knows the bridge and the bridge the exit, and
  -- the exit has a function. Base64, JSON and nacl obey their laws.
  pub typed_searchv2-Travels :
      (c : Circuit) (path : Path3 env c) (node : Client) (own : ℕ) (others : List ℕ) (q : Bytes)
      (dc : ℕ) (w : World) (v : Bool) (avoided : List Bytes)
      → node.circuits ≡ own ∷ others
      → node.circuit own ≡ c
      → IsReady c
      → c.dc ≡ some dc
      → IsWord q
      → env.codec.parse (search_line q) ≡ some (searchv2_members q)
      → path.exit.has_searcher ≡ true
      → let key = env.codec.encode c.pub_k in
        let guard = add_route key path.from_origin path.guard in
        let bridge = add_route key path.from_guard path.bridge in
        let exit = add_route key path.from_bridge path.exit in
        (node' : Client) × (b3 b2 b1 nonce : Bytes) × (run_line
            (world_of env w)
            (cli_of (some node) v avoided)
            (typed_searchv2 q)
          ≡ done (ready (cli_of (some node') v avoided), effect (send_text dc b3) ∷ []))
        × (dec_l1_msg env path.from_origin path.guard b3
            ≡ done (guard, send_text (path.guard.peer path.to_bridge).dc b2 ∷ []))
        × (dec_l1_msg env path.from_guard path.bridge b2
            ≡ done (bridge, send_text (path.bridge.peer path.to_exit).dc b1 ∷ []))
        × (dec_l1_msg env path.from_bridge path.exit b1
            ≡ done (exit, search key q [] key nonce ∷ []))
  unfolding written
  typed_searchv2-Travels c path node own others q dc w v avoided first kept h open_dc word parsed
        searches =
      let (c', b3, sent, ready', (b2, b1, enc, at_guard, at_bridge, at_exit, with_key, under)) =
        send-Travels env codec_laws nacl_laws c path (search_line q) dc h open_dc in
      let (type, query, lang) = read_searchv2 q in
      let key = env.codec.encode c.pub_k in
      let exit = add_route key path.from_bridge path.exit in
      let here : send env.codec env.nacl 4 (node.circuit own) (search_line q)
          ≡ some (done (c', send_text dc b3)) =
        ap (λ (z : Circuit). send env.codec env.nacl 4 z (search_line q)) kept ∙ sent in
      let called : calls exit enc.key (read_l2 (searchv2_members q)).query
            (read_l2 (searchv2_members q)).lang enc.nonce
          ≡ calls exit key q [] (env.codec.encode c'.exit.nonce) =
        rw (with_key, under, query, lang) refl in
      (
        put_circuit own c' node,
        b3,
        b2,
        b1,
        env.codec.encode c'.exit.nonce,
        run_line-searchv2 (world_of env w) node v avoided q word
            ∙ ap (written (cli_of (some node) v avoided)) (
                send_first_own (world_of env w) node own others (search_line q) c' b3 dc first
                  here),
        at_guard,
        at_bridge,
        at_exit
            ∙ (handle_l1_msg_search_text env exit path.from_bridge (search_line q)
                  (searchv2_members q) enc parsed type
                  (searcher_stays key path.from_bridge path.exit searches)
                ∙ called),
      )
