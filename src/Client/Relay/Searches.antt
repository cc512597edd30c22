-- ===== src/Client/Relay/Searches.antt =====
-- The messages "search" and "respv2".
use minedive.Common.{
  ◌≡◌, refl, ap, ◌∙◌, ℕ, true, Option, some, [], ◌∷◌, Bytes, bytes, ◌is◌, Dict, done,
}
use minedive.Codec.{Value, IsCodec}
use minedive.Wire.{EncL1Msg, L2Msg, l2_members, read_min, read_l2, members_of}
use minedive.Wire.Searches.{IsL2, read_l2-print, read_min-print_l2}
use minedive.Client.State.{Client, search, respond}
use minedive.Client.Relay.{
  Env, search_msg, respv2, message_of, handle_search, handle, handle_l1_msg,
}

message_of_search : message_of (bytes "search") ≡ search_msg
unfolding message_of ◌is◌ bytes
message_of_search = refl

message_of_respv2 : message_of (bytes "respv2") ≡ respv2
unfolding message_of ◌is◌ bytes
message_of_respv2 = refl

module _ (env : Env) (laws : IsCodec env.codec) (c : Client) (p : ℕ) (m : L2Msg)
    (v : IsL2 env.codec m) where
  printed : Bytes
  printed = env.codec.print (l2_members m)

  -- A search that came through a circuit.
  pub handle_l1_msg_search :
      (e : EncL1Msg)
      → m.type ≡ bytes "search"
      → c.has_searcher ≡ true
      → handle_l1_msg env c p (env.codec.print (l2_members m)) (some e)
        ≡ done (c, search e.key m.query m.lang e.key e.nonce ∷ [])
  unfolding handle_l1_msg handle handle_search printed
  handle_l1_msg_search e type searches =
      ap (λ (t : Bytes). handle env c p printed (some e) (message_of t))
        (read_min-print_l2 env.codec laws m v ∙ type)
      ∙ (ap (handle env c p printed (some e)) message_of_search
          ∙ rw (searches, handle, handle_search, read_l2-print env.codec laws m v) refl)

  -- An answer to a search.
  pub handle_l1_msg_respv2 :
      (e : Option EncL1Msg)
      → m.type ≡ bytes "respv2"
      → c.has_responder ≡ true
      → handle_l1_msg env c p (env.codec.print (l2_members m)) e
        ≡ done (c, respond (env.codec.print (l2_members m)) ∷ [])
  unfolding handle_l1_msg handle printed
  handle_l1_msg_respv2 e type responds =
      ap (λ (t : Bytes). handle env c p printed e (message_of t))
        (read_min-print_l2 env.codec laws m v ∙ type)
      ∙ (ap (handle env c p printed e) message_of_respv2 ∙ rw (responds, handle) refl)

-- A search in any text that is read as an object of type "search".
pub handle_l1_msg_search_text :
    (env : Env) (c : Client) (p : ℕ) (msg : Bytes) (d : Dict Value) (e : EncL1Msg)
    → env.codec.parse msg ≡ some d
    → (read_min d).type ≡ bytes "search"
    → c.has_searcher ≡ true
    → handle_l1_msg env c p msg (some e)
      ≡ done (c, search e.key (read_l2 d).query (read_l2 d).lang e.key e.nonce ∷ [])
unfolding handle_l1_msg handle handle_search
handle_l1_msg_search_text env c p msg d e parsed type searches =
    ap
      (λ (o : Option (Dict Value)).
        handle env c p msg (some e) (message_of (read_min (members_of o)).type))
      parsed
    ∙ (ap (λ (t : Bytes). handle env c p msg (some e) (message_of t)) type
        ∙ (ap (handle env c p msg (some e)) message_of_search
            ∙ rw (searches, handle, handle_search, parsed) refl))
