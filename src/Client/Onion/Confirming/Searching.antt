-- ===== src/Client/Onion/Confirming/Searching.antt =====
-- A search: `SearchL2` of one node, and the answer of the node at the end of its circuit.
use minedive.Common.{
  ℕ, ◌≡◌, refl, inl, inr, sym, ap, ◌∙◌, List, [], ◌∷◌, none, some, Bytes, bytes, is_iff, true,
  ==_refl, done, arith,
}
use minedive.Codec.{IsCodec, IsNacl}
use minedive.Wire.{L2Msg, zero_l2, l2_members}
use minedive.Wire.Searches.{IsL2}
use minedive.Client.State.{Client, Circuit, send_text, search, respond, put_circuit}
use minedive.Client.Circuits.{send, state_ok}
use minedive.Client.Circuits.Sending.{IsReady, with_nonces, onion, send_total}
use minedive.Client.Dialling.{search_first, search_l2}
use minedive.Client.Relay.{Env}
use minedive.Client.Relay.Searches.{handle_l1_msg_search, handle_l1_msg_respv2}
use minedive.Client.Decrypt.{add_route, dec_l1_msg}
use minedive.Client.Replies.{reply_circuit-Returns}
use minedive.Client.Onion.{Path3, onion-Travels}
use minedive.Client.Onion.Confirming.{IsFree, IsUsable, back}
use minedive.Minecli.{searcher, canned_answer}

abbrev pub search_of : Bytes → Bytes → L2Msg
search_of q lang = record zero_l2 { type = bytes "search"; query = q; lang = lang }

is_ok : (c : Circuit) → c.state ≡ bytes "OK" → state_ok c ≡ true
unfolding state_ok
is_ok c h = (is_iff c.state (bytes "OK")).1 h

searcher-add_route :
    (key : Bytes) (p : ℕ) (cli : Client)
    → IsFree key p cli
    → cli.has_searcher ≡ true
    → (add_route key p cli).has_searcher ≡ true
unfolding add_route
searcher-add_route key p cli (inl h) searches = rw (h, add_route) searches
searcher-add_route key p cli (inr h) searches = rw (h, add_route) searches

put_circuit_self : (z : ℕ) (v : Circuit) (c : Client) → (put_circuit z v c).circuit z ≡ v
unfolding put_circuit
put_circuit_self z v c = rw (==_refl z) refl

module _ (env : Env) (codec_laws : IsCodec env.codec) (nacl_laws : IsNacl env.nacl) where
  search_of-IsL2 :
      (q lang : Bytes)
      → env.codec.valid q ≡ true
      → env.codec.valid lang ≡ true
      → IsL2 env.codec (search_of q lang)
  unfolding bytes
  search_of-IsL2 q lang hq hl = record {
    type = codec_laws.valid_ascii (bytes "search") (omega arith);
    lang = hl;
    query = hq;
    text = tt;
  }

  pub canned_answer-IsL2 : (q : Bytes) → env.codec.valid q ≡ true → IsL2 env.codec (canned_answer q)
  unfolding canned_answer bytes
  canned_answer-IsL2 q hq = record {
    type = codec_laws.valid_ascii (bytes "respv2") (omega arith);
    lang = codec_laws.valid_ascii [] tt;
    query = hq;
    text = (
      codec_laws.valid_ascii (bytes "I AM NOT A BROWSER") (omega arith),
      (
        codec_laws.valid_ascii (bytes "https://example.com") (omega arith),
        (
          codec_laws.valid_ascii (bytes "http://example.com/") (omega arith),
          (
            codec_laws.valid_ascii (bytes "https://example.com/") (omega arith),
            (
              codec_laws.valid_ascii (bytes "https://nlnet.nl/") (omega arith),
              (codec_laws.valid_ascii _ (omega arith), tt),
            ),
          ),
        ),
      ),
    );
  }

  search_l2-first :
      (asker : Client) (own : ℕ) (others : List ℕ) (q lang : Bytes) (dc : ℕ) (b : Bytes)
      (c' : Circuit)
      → asker.circuits ≡ own ∷ others
      → (asker.circuit own).state ≡ bytes "OK"
      → send env.codec env.nacl 4
          (asker.circuit own)
          (env.codec.print (l2_members (search_of q lang)))
        ≡ some (done (c', send_text dc b))
      → search_l2 env.codec env.nacl asker q lang
        ≡ some (done (put_circuit own c' asker, send_text dc b ∷ []))
  unfolding search_l2 search_first
  search_l2-first asker own others q lang dc b c' first ok sent =
      let b0 = env.codec.print (l2_members (search_of q lang)) in
      ap (search_first env.codec env.nacl asker b0) first
      ∙ rw (is_ok (asker.circuit own) ok, search_first, sent) refl

  -- The circuit of the asker after the search is as it was, but for the nonces.
  moved-IsUsable :
      (c : Circuit) (path : Path3 env c) (asker : Client) (e b g : Bytes)
      → (new : IsUsable env c path asker) → asker.circuit new.own ≡ c
      → IsUsable env c path (put_circuit new.own (with_nonces c e b g) asker)
  unfolding put_circuit
  moved-IsUsable c path asker e b g new kept = record {
    own = new.own;
    others = new.others;
    guard_free = new.guard_free;
    bridge_free = new.bridge_free;
    exit_free = new.exit_free;
    no_route = new.no_route;
    first = new.first;
    id =
        ap (λ (z : Circuit). z.circuit_id) (put_circuit_self new.own (with_nonces c e b g) asker)
        ∙ (ap (λ (z : Circuit). z.circuit_id) (sym kept) ∙ new.id);
    key = ap (λ (z : Circuit). z.exit.tkey) (put_circuit_self new.own (with_nonces c e b g) asker);
  }

  -- A search is answered. On a node whose first circuit is ready and "OK", `SearchL2` writes one
  -- text, which goes over the guard and the bridge to the exit; the exit calls its `Searcher` with
  -- the query, the language, and the key and the nonce of the message; minecli's function, called
  -- with these, writes one text, which the bridge and the guard pass on; and the asker's step on it
  -- calls its `Responder` with the answer. The nodes on the path have no other route for the
  -- circuit, the two ends have their functions, and the query and the language are UTF-8. Base64,
  -- JSON and nacl obey their laws.
  pub search_l2-Answered :
      (c : Circuit) (path : Path3 env c) (asker : Client) (q lang : Bytes) (dc p q' r : ℕ)
      → (new : IsUsable env c path asker) → asker.circuit new.own ≡ c
      → IsReady c
      → c.dc ≡ some dc
      → c.state ≡ bytes "OK"
      → env.codec.valid q ≡ true
      → env.codec.valid lang ≡ true
      → path.exit.has_searcher ≡ true
      → asker.has_responder ≡ true
      → let key = env.codec.encode c.pub_k in
        let guard = add_route key path.from_origin path.guard in
        let bridge = add_route key path.from_guard path.bridge in
        let exit = add_route key path.from_bridge path.exit in
        (asker' : Client) × (b3 b2 b1 b nonce : Bytes) × (search_l2 env.codec env.nacl asker q lang
          ≡ some (done (asker', send_text dc b3 ∷ [])))
        × (dec_l1_msg env path.from_origin path.guard b3
            ≡ done (guard, send_text (path.guard.peer path.to_bridge).dc b2 ∷ []))
        × (dec_l1_msg env path.from_guard path.bridge b2
            ≡ done (bridge, send_text (path.bridge.peer path.to_exit).dc b1 ∷ []))
        × (dec_l1_msg env path.from_bridge path.exit b1
            ≡ done (exit, search key q lang key nonce ∷ []))
        × (searcher env.codec env.nacl exit q key nonce
            ≡ done (send_text (exit.peer path.from_bridge).dc b ∷ []))
        × (dec_l1_msg env p bridge b
            ≡ done (bridge, send_text (bridge.peer path.from_guard).dc b ∷ []))
        × (dec_l1_msg env q' guard b
            ≡ done (guard, send_text (guard.peer path.from_origin).dc b ∷ []))
        × (dec_l1_msg env r asker' b
            ≡ done (asker', respond (env.codec.print (l2_members (canned_answer q))) ∷ []))
  unfolding back searcher put_circuit canned_answer
  search_l2-Answered c path asker q lang dc p q' r new kept h open_dc ok utf_q utf_lang searches
        responds =
      let valid_q = search_of-IsL2 q lang utf_q utf_lang in
      let valid_a = canned_answer-IsL2 q utf_q in
      let key = env.codec.encode c.pub_k in
      let exit = add_route key path.from_bridge path.exit in
      let msg = env.codec.print (l2_members (search_of q lang)) in
      let answer = env.codec.print (l2_members (canned_answer q)) in
      let (e, b', g, ready, sent) = send_total env.codec env.nacl c msg dc h open_dc in
      let c' = with_nonces c e b' g in
      let asker' = put_circuit new.own c' asker in
      let new' = moved-IsUsable c path asker e b' g new kept in
      let (b2, b1, enc, at_guard, at_bridge, at_exit, with_key, under) =
        onion-Travels env codec_laws nacl_laws c path msg e b' g ready in
      let (b, replied, by_bridge, by_guard, by_origin) =
        reply_circuit-Returns env codec_laws nacl_laws c'
          (back env codec_laws nacl_laws c path asker' e b' g new') answer p q' r ready.exit in
      let keyed : done (exit, search enc.key q lang enc.key enc.nonce ∷ [])
          ≡ done (exit, search key q lang key (env.codec.encode e) ∷ []) =
        rw (with_key, under) refl in
      (
        asker',
        onion env.codec env.nacl c' msg,
        b2,
        b1,
        b,
        env.codec.encode e,
        search_l2-first asker new.own new.others q lang dc (onion env.codec env.nacl c' msg) c'
            new.first (ap (λ (z : Circuit). z.state) kept ∙ ok)
            (ap (λ (z : Circuit). send env.codec env.nacl 4 z msg) kept ∙ sent),
        at_guard,
        at_bridge,
        at_exit
            ∙ (handle_l1_msg_search env codec_laws exit path.from_bridge (search_of q lang) valid_q
                  enc refl
                  (searcher-add_route key path.from_bridge path.exit new.exit_free searches)
                ∙ keyed),
        replied,
        by_bridge,
        by_guard,
        by_origin
            ∙ handle_l1_msg_respv2 env codec_laws asker' r (canned_answer q) valid_a none refl
                responds,
      )
