-- ===== src/Client/Relay/Connects.antt =====
-- The message "connect", by which a circuit makes one of its nodes dial the next.
use minedive.Common.{
  ℕ, ◌≡◌, refl, ap, ◌∙◌, Option, none, some, [], ◌∷◌, Bytes, bytes, ◌is◌, Dict, true, false, done,
}
use minedive.Codec.{Value, text}
use minedive.Wire.{EncL1Msg, read_min, read_fwd, members_of}
use minedive.Client.State.{Client, dial_peer}
use minedive.Client.Peers.{get_peer}
use minedive.Client.Relay.{Env, connect, message_of, handle_connect, handle, handle_l1_msg}

-- What `json.Unmarshal` reads in the text that asks a node to connect to another.
abbrev pub connect_members : Bytes → Dict Value
connect_members to = (bytes "type", text (bytes "connect")) ∷ (bytes "to", text to) ∷ []

message_of_connect : message_of (bytes "connect") ≡ connect
unfolding message_of ◌is◌ bytes
message_of_connect = refl

type_of_connect : (to : Bytes) → (read_min (connect_members to)).type ≡ bytes "connect"
unfolding read_min ◌is◌ bytes
type_of_connect to = refl

to_of_connect : (to : Bytes) → (read_fwd (connect_members to)).to ≡ to
unfolding read_fwd ◌is◌ bytes
to_of_connect to = refl

module _ (env : Env) (c : Client) (p : ℕ) (msg to : Bytes)
    (parsed : env.codec.parse msg ≡ some (connect_members to)) where
  handle_connect-Dials :
      get_peer c to ≡ none → handle_connect env c p msg ≡ done (c, dial_peer to [] true false ∷ [])
  unfolding handle_connect
  handle_connect-Dials unknown =
      let at =
        ap (λ (d : Option (Dict Value)). (read_fwd (members_of d)).to) parsed ∙ to_of_connect to in
      rw (ap (get_peer c) at ∙ unknown, handle_connect)
        (ap (λ (t : Bytes). done (c, dial_peer t [] true false ∷ [])) at)

  -- A node that is asked to connect to one that is not its peer dials it as the initiator.
  pub handle_l1_msg_connect :
      (e : Option EncL1Msg)
      → get_peer c to ≡ none
      → handle_l1_msg env c p msg e ≡ done (c, dial_peer to [] true false ∷ [])
  unfolding handle_l1_msg handle
  handle_l1_msg_connect e unknown =
      let named =
        ap (λ (d : Option (Dict Value)). (read_min (members_of d)).type) parsed
        ∙ type_of_connect to in
      ap (handle env c p msg e) (ap message_of named ∙ message_of_connect)
      ∙ handle_connect-Dials unknown
