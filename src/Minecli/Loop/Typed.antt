-- ===== src/Minecli/Loop/Typed.antt =====
-- A search that is typed into minecli.
use minedive.Common.{
  ◌≡◌, refl, ap, ◌∙◌, Bool, true, List, [], ◌∷◌, ◌++◌, some, Bytes, bytes, done, ◌is◌, ℕ,
}
use minedive.Codec.{IsCodec, IsNacl}
use minedive.Wire.{L2Msg, l2_members}
use minedive.Wire.Searches.{read_l2-print}
use minedive.Client.State.{Client, Circuit, send_text, search, respond}
use minedive.Client.Circuits.Sending.{IsReady}
use minedive.Client.Dialling.{search_l2}
use minedive.Client.Relay.{Env}
use minedive.Client.Decrypt.{add_route, dec_l1_msg}
use minedive.Client.Onion.{Path3}
use minedive.Client.Onion.Confirming.{IsUsable}
use minedive.Client.Onion.Confirming.Searching.{search_l2-Answered, canned_answer-IsL2}
use minedive.Minecli.{searcher, responder, canned_answer}
use minedive.Minecli.Line.{command_of_search, is_blank, IsWord, unwords, words_of-unwords}
use minedive.Minecli.Loop.{
  World, ready, effect, run_line, run_command, run_search, search_for, written,
}
use minedive.Minecli.Loop.Table.{cli_of}

-- minecli with the packages of the nodes.
abbrev pub world_of : Env → World → World
world_of env w = record w { net = record w.net { codec = env.codec }; nacl = env.nacl }

-- The line "search" with a query and a language.
abbrev pub typed_search : Bytes → Bytes → Bytes
typed_search q lang = unwords (bytes "search") (q ∷ lang ∷ []) ++ b'\n' ∷ []

search_IsWord : IsWord (bytes "search")
unfolding bytes is_blank
search_IsWord = (λ e. cc, (refl, (refl, (refl, (refl, (refl, (refl, tt)))))))

run_line-search :
    (w : World) (c : Client) (v : Bool) (avoided : List Bytes) (q lang : Bytes)
    → IsWord q
    → IsWord lang
    → run_line w (cli_of (some c) v avoided) (typed_search q lang)
      ≡ written (cli_of (some c) v avoided) (search_l2 w.net.codec w.nacl c q lang)
unfolding run_line run_command run_search search_for ◌is◌ bytes
run_line-search w c v avoided q lang hq hl =
    rw
      (
        words_of-unwords (bytes "search") (q ∷ lang ∷ []) search_IsWord (hq, (hl, tt)),
        run_line,
        command_of_search,
      )
      refl

module _ (env : Env) (codec_laws : IsCodec env.codec) (nacl_laws : IsNacl env.nacl) where
  responder-print :
      (q : Bytes)
      → env.codec.valid q ≡ true
      → responder env.codec (env.codec.print (l2_members (canned_answer q)))
        ≡ (canned_answer q).text
  unfolding responder
  responder-print q h =
      ap (λ (m : L2Msg). m.text)
        (read_l2-print env.codec codec_laws (canned_answer q)
          (canned_answer-IsL2 env codec_laws nacl_laws q h))

  -- A search that is typed is answered. The user of minecli types "search", a query and a language,
  -- words without blanks, on a node whose first circuit is ready and "OK". The command loop writes
  -- one text, and goes on to the next line. The text goes over the guard and the bridge to the
  -- exit, which calls its `Searcher` with the query, the language, and the key and the nonce of the
  -- message; minecli's function there, called with these, writes one text, which the bridge and the
  -- guard pass on; and the asker's step on it calls its `Responder` with the answer, from which
  -- minecli's function prints the texts. The nodes on the path have no other route for the circuit,
  -- the two ends have their functions, and the query and the language are UTF-8. Base64, JSON and
  -- nacl obey their laws.
  pub typed_search-Answered :
      (c : Circuit) (path : Path3 env c) (asker : Client) (q lang : Bytes) (dc p q' r : ℕ)
      (w : World) (v : Bool) (avoided : List Bytes)
      → (new : IsUsable env c path asker) → asker.circuit new.own ≡ c
      → IsReady c
      → c.dc ≡ some dc
      → c.state ≡ bytes "OK"
      → env.codec.valid q ≡ true
      → env.codec.valid lang ≡ true
      → path.exit.has_searcher ≡ true
      → asker.has_responder ≡ true
      → IsWord q
      → IsWord lang
      → let key = env.codec.encode c.pub_k in
        let guard = add_route key path.from_origin path.guard in
        let bridge = add_route key path.from_guard path.bridge in
        let exit = add_route key path.from_bridge path.exit in
        let answer = env.codec.print (l2_members (canned_answer q)) in
        (asker' : Client) × (b3 b2 b1 b nonce : Bytes) × (run_line
            (world_of env w)
            (cli_of (some asker) v avoided)
            (typed_search q lang)
          ≡ done (ready (cli_of (some asker') v avoided), effect (send_text dc b3) ∷ []))
        × (dec_l1_msg env path.from_origin path.guard b3
            ≡ done (guard, send_text (path.guard.peer path.to_bridge).dc b2 ∷ []))
        × (dec_l1_msg env path.from_guard path.bridge b2
            ≡ done (bridge, send_text (path.bridge.peer path.to_exit).dc b1 ∷ []))
        × (dec_l1_msg env path.from_bridge path.exit b1
            ≡ done (exit, search key q lang key nonce ∷ []))
        × (searcher env.codec env.nacl exit q key nonce
            ≡ done (send_text (exit.peer path.from_bridge).dc b ∷ []))
        × (dec_l1_msg env p bridge b
            ≡ done (bridge, send_text (bridge.peer path.from_guard).dc b ∷ []))
        × (dec_l1_msg env q' guard b
            ≡ done (guard, send_text (guard.peer path.from_origin).dc b ∷ []))
        × (dec_l1_msg env r asker' b ≡ done (asker', respond answer ∷ []))
        × (responder env.codec answer ≡ (canned_answer q).text)
  unfolding written
  typed_search-Answered c path asker q lang dc p q' r w v avoided new kept h open_dc ok utf_q
        utf_lang searches responds word_q word_lang =
      let (
        asker', b3, b2, b1, b, nonce, sent, at_guard, at_bridge, at_exit, replied, by_bridge,
        by_guard, shown,
      ) =
        search_l2-Answered env codec_laws nacl_laws c path asker q lang dc p q' r new kept h open_dc
          ok utf_q utf_lang searches responds in
      (
        asker',
        b3,
        b2,
        b1,
        b,
        nonce,
        run_line-search (world_of env w) asker v avoided q lang word_q word_lang
            ∙ ap (written (cli_of (some asker) v avoided)) sent,
        at_guard,
        at_bridge,
        at_exit,
        replied,
        by_bridge,
        by_guard,
        shown,
        responder-print q utf_q,
      )
