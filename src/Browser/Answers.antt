-- ===== src/Browser/Answers.antt =====
-- An answer that the page gives to a search.
use minedive.Common.{
  ℕ, ◌+◌, ◌≡◌, refl, sym, ap, ◌∙◌, true, false, List, [], ◌∷◌, ◌++◌, none, some, Bytes, bytes, done,
  length, All, arith,
}
use mathlib.Core.List.{append-nil, append_assoc}
use minedive.Codec.{Codec, Nacl, IsCodec, IsNacl}
use minedive.Wire.{L2Msg, zero_l2, l2_members, read_l2, members}
use minedive.Wire.Searches.{IsL2, read_l2-print}
use minedive.Client.State.{Client, Circuit, send_text, respond}
use minedive.Client.Circuits.{reply_circuit}
use minedive.Client.Circuits.Sending.{IsNonce}
use minedive.Client.Relay.{Env}
use minedive.Client.Relay.Searches.{handle_l1_msg_respv2}
use minedive.Client.Decrypt.{dec_l1_msg}
use minedive.Client.Replies.{BackPath, reply_circuit-Returns}
use minedive.Browser.{Js, of_client, add_texts, read_result, read_args, answer_of, reply_l2}

-- The answer with the query and the texts.
abbrev pub page_answer : Bytes → List Bytes → L2Msg
page_answer q ts = record { type = bytes "respv2"; lang = []; query = q; text = ts }

module _ {V : Type 0} (js : Js V) where
  -- The items of the list from index `j` on are these texts.
  abbrev pub ReadsTexts : V → ℕ → List Bytes → Type 0
  ReadsTexts list j [] = Unit
  ReadsTexts list j (t ∷ ts) =
      ((v : V) × (js.index list j ≡ done v) × (js.string v ≡ t)) × ReadsTexts list (j + 1) ts

  -- An object of the page with the query as "q" and the texts as "text".
  pub record IsResults (v : V) (q : Bytes) (ts : List Bytes) : Type 0 where
    pub object : js.is_object v ≡ true
    pub q_value : V
    pub list : V
    pub get_q : js.get v (bytes "q") ≡ done q_value
    pub get_text : js.get v (bytes "text") ≡ done list
    pub q_text : js.string q_value ≡ q
    pub size : js.length_of list ≡ done (length ts)
    pub items : ReadsTexts list 0 ts

  add_texts_all :
      (ts : List Bytes) (j : ℕ) (list : V) (msg : L2Msg)
      → ReadsTexts list j ts
      → add_texts js (length ts) j list msg ≡ done (record msg { text = msg.text ++ ts })
  unfolding add_texts
  add_texts_all [] j list msg h =
      ap (λ (l : List Bytes). done (record msg { text = l })) (sym (append-nil msg.text))
  add_texts_all (t ∷ ts) j list msg ((v, found, shown), h) =
      rw (found, add_texts, shown)
        (add_texts_all ts (j + 1) list (record msg { text = msg.text ++ t ∷ [] }) h
          ∙ ap (λ (l : List Bytes). done (record msg { text = l }))
              (append_assoc msg.text (t ∷ []) ts))

  read_result_lem :
      (v : V) (q : Bytes) (ts : List Bytes)
      → IsResults v q ts
      → read_result js v zero_l2 ≡ done (record zero_l2 { query = q; text = ts })
  unfolding read_result
  read_result_lem v q ts h =
      rw (h.get_q, read_result, h.get_text, h.size, h.q_text)
        (add_texts_all ts 0 h.list (record zero_l2 { query = q }) h.items)

  reply_l2_named :
      (codec : Codec) (nacl : Nacl) (c : Client) (name key nonce v : V) (q : Bytes)
      (ts : List Bytes)
      → js.is_object name ≡ false
      → js.is_object key ≡ false
      → js.is_object nonce ≡ false
      → IsResults v q ts
      → reply_l2 js codec nacl (some c) (name ∷ key ∷ nonce ∷ v ∷ [])
        ≡ reply_circuit codec nacl c
            (codec.print (l2_members (page_answer q ts)))
            (js.string key)
            (js.string nonce)
  unfolding reply_l2 answer_of read_args of_client
  reply_l2_named codec nacl c name key nonce v q ts hn hk ho h =
      rw (hn, reply_l2, answer_of, read_args, hk, ho, h.object, read_result_lem v q ts h) refl

  -- An answer of the page comes back to the node that searched. The page calls `replyL2` with the
  -- name, the key and the nonce that it got with the search, strings all, and an object with the
  -- query and a list of texts. Then `ReplyL2` writes one text; the bridge and the guard pass it on
  -- as it is; and the step of the origin on it calls its `Responder` with a JSON text that is read
  -- as an answer with that query and these texts, in their order. The nodes have the routes and the
  -- circuit of `BackPath`, the origin has a function, and the query and the texts are UTF-8;
  -- base64, JSON and nacl obey their laws.
  pub reply_l2-Returns :
      (env : Env)
      → IsCodec env.codec
      → IsNacl env.nacl
      → (c : Circuit) (path : BackPath env c) (name key nonce v : V) (q : Bytes) (ts : List Bytes)
        (p q' r : ℕ)
      → IsNonce c.exit.nonce
      → js.is_object name ≡ false
      → js.is_object key ≡ false
      → js.is_object nonce ≡ false
      → js.string key ≡ env.codec.encode c.pub_k
      → js.string nonce ≡ env.codec.encode c.exit.nonce
      → IsResults v q ts
      → env.codec.valid q ≡ true
      → All (λ t. env.codec.valid t ≡ true) ts
      → path.origin.has_responder ≡ true
      → (b text : Bytes) × (reply_l2 js env.codec env.nacl
            (some path.exit)
            (name ∷ key ∷ nonce ∷ v ∷ [])
          ≡ done (send_text (path.exit.peer path.to_bridge).dc b ∷ []))
        × (dec_l1_msg env p path.bridge b
            ≡ done (path.bridge, send_text (path.bridge.peer path.to_guard).dc b ∷ []))
        × (dec_l1_msg env q' path.guard b
            ≡ done (path.guard, send_text (path.guard.peer path.to_origin).dc b ∷ []))
        × (dec_l1_msg env r path.origin b ≡ done (path.origin, respond text ∷ []))
        × (read_l2 (members env.codec text) ≡ page_answer q ts)
  unfolding bytes
  reply_l2-Returns env codec_laws nacl_laws c path name key nonce v q ts p q' r h hn hk ho is_key
        is_nonce results utf_q utf_ts responds =
      let msg = env.codec.print (l2_members (page_answer q ts)) in
      let valid : IsL2 env.codec (page_answer q ts) = record {
        type = codec_laws.valid_ascii (bytes "respv2") (omega arith);
        lang = codec_laws.valid_ascii [] tt;
        query = utf_q;
        text = utf_ts;
      } in
      let (b, replied, by_bridge, by_guard, by_origin) =
        reply_circuit-Returns env codec_laws nacl_laws c path msg p q' r h in
      (
        b,
        msg,
        reply_l2_named env.codec env.nacl path.exit name key nonce v q ts hn hk ho results
            ∙ (ap
                  (λ (k : Bytes).
                    reply_circuit env.codec env.nacl path.exit msg k (js.string nonce))
                  is_key
                ∙ (ap
                      (λ (n : Bytes).
                        reply_circuit env.codec env.nacl path.exit msg (env.codec.encode c.pub_k) n)
                      is_nonce
                    ∙ replied)),
        by_bridge,
        by_guard,
        by_origin
            ∙ handle_l1_msg_respv2 env codec_laws path.origin r (page_answer q ts) valid none refl
                responds,
        read_l2-print env.codec codec_laws (page_answer q ts) valid,
      )
