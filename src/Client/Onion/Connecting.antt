-- ===== src/Client/Onion/Connecting.antt =====
-- `SetupCircuit` makes the guard dial the bridge, and the bridge dial the exit.
use minedive.Common.{
  ℕ, ◌≡◌, refl, ap, ◌∙◌, true, false, [], ◌∷◌, Option, none, some, Outcome, panic, Bytes, done,
}
use minedive.Codec.{IsCodec, IsNacl}
use minedive.Nonce.{use_nonce}
use minedive.Client.State.{Client, Node, Circuit, Effect, send_text, dial_peer}
use minedive.Client.Peers.{get_peer}
use minedive.Client.Circuits.Sending.{IsNonce, with_nonce, layer_text, wrap_text}
use minedive.Client.Circuits.Building.{seal_next, connect_text, connect_bridge, connect_exit}
use minedive.Client.Relay.{Env}
use minedive.Client.Relay.Connects.{connect_members, handle_l1_msg_connect}
use minedive.Client.Decrypt.{add_route, dec_l1_msg}
use minedive.Client.Decrypt.Layers.{Agrees, dec_l1_msg-layer}
use minedive.Client.Replies.{next_nonce, next_nonce-IsNonce}
use minedive.Client.Onion.{relay-layer, Agrees-with_nonce, get_peer-add_route}

-- The node with its nonce moved on.
abbrev moved : Node → Node
moved node = with_nonce node (next_nonce node)

module _ (env : Env) (codec_laws : IsCodec env.codec) (nacl_laws : IsNacl env.nacl) where
  seal_next_lem :
      (pub_k : Bytes) (node : Node) (msg : Bytes)
      → seal_next env.codec env.nacl pub_k node msg
        ≡ (moved node, layer_text env.codec env.nacl pub_k (moved node) msg)
  unfolding seal_next use_nonce
  seal_next_lem pub_k node msg = refl

  -- A node that opens the request to connect dials the node that it names.
  opened-Dials :
      (c : Circuit) (node : Node) (cli : Client) (p : ℕ) (to : Bytes)
      → Agrees env.nacl c.priv_k c.pub_k node cli
      → IsNonce node.nonce
      → env.codec.parse (connect_text to) ≡ some (connect_members to)
      → get_peer cli to ≡ none
      → dec_l1_msg env p cli (layer_text env.codec env.nacl c.pub_k (moved node) (connect_text to))
        ≡ done (add_route (env.codec.encode c.pub_k) p cli, dial_peer to [] true false ∷ [])
  opened-Dials c node cli p to agrees h reads unknown =
      let key = env.codec.encode c.pub_k in
      let n = next_nonce-IsNonce node h in
      dec_l1_msg-layer env codec_laws nacl_laws p cli c.priv_k c.pub_k (moved node)
        (Agrees-with_nonce env codec_laws nacl_laws c.priv_k c.pub_k (next_nonce node) node cli
          agrees)
        n.size (connect_text to)
      ∙ handle_l1_msg_connect env (add_route key p cli) p (connect_text to) to reads _
          (get_peer-add_route key to p cli ∙ unknown)

  -- The first step of `SetupCircuit` once it has the keys. To the guard, which is a peer of the
  -- origin and is not connected to the bridge yet, it writes one text, on the data channel that the
  -- circuit uses from then on; and the guard, on that text, dials the bridge as the initiator. For
  -- a name of the bridge that the text written by hand carries as it is.
  pub connect_bridge-Dials :
      (m : Client) (guard bridge : Bytes) (c : Circuit) (p : ℕ) (cli : Client) (from : ℕ)
      → get_peer m guard ≡ some p
      → Agrees env.nacl c.priv_k c.pub_k c.guard cli
      → IsNonce c.guard.nonce
      → env.codec.parse (connect_text bridge) ≡ some (connect_members bridge)
      → get_peer cli bridge ≡ none
      → (c' : Circuit) × (b : Bytes) × (connect_bridge env.codec env.nacl m guard bridge c
          ≡ some (c', send_text (m.peer p).dc b))
        × (c'.dc ≡ some (m.peer p).dc)
        × IsNonce c'.guard.nonce
        × (dec_l1_msg env from cli b
            ≡ done (
              add_route (env.codec.encode c.pub_k) from cli,
              dial_peer bridge [] true false ∷ [],
            ))
  unfolding connect_bridge
  connect_bridge-Dials m guard bridge c p cli from known agrees h reads unknown = (
    record c { dc = some (m.peer p).dc; guard = record (moved c.guard) { id = guard } },
    layer_text env.codec env.nacl c.pub_k (moved c.guard) (connect_text bridge),
    rw (known, connect_bridge)
        (ap
          (λ (s : Node × Bytes). some (
            record c { dc = some (m.peer p).dc; guard = record s.0 { id = guard } },
            send_text (m.peer p).dc s.1,
          ))
          (seal_next_lem c.pub_k c.guard (connect_text bridge))),
    refl,
    next_nonce-IsNonce c.guard h,
    opened-Dials c c.guard cli from bridge agrees h reads unknown,
  )

  -- The second step of `SetupCircuit`, on the data channel that the first has set. It writes one
  -- text for the guard, which knows the bridge by then and passes on what is in it; and the bridge,
  -- which is not connected to the exit yet, dials the exit as the initiator. The nonces of the two
  -- stay sound, and the circuit has the names of the bridge and of the exit.
  pub connect_exit-Dials :
      (dc : ℕ) (bridge exit : Bytes) (c : Circuit) (g b : Client) (from_origin from_guard tgt : ℕ)
      → c.dc ≡ some dc
      → Agrees env.nacl c.priv_k c.pub_k c.guard g
      → Agrees env.nacl c.priv_k c.pub_k c.bridge b
      → IsNonce c.guard.nonce
      → IsNonce c.bridge.nonce
      → env.codec.valid bridge ≡ true
      → get_peer g bridge ≡ some tgt
      → env.codec.parse (connect_text exit) ≡ some (connect_members exit)
      → get_peer b exit ≡ none
      → let key = env.codec.encode c.pub_k in
        (c' : Circuit) × (b2 b1 : Bytes) × (connect_exit env.codec env.nacl bridge exit c
          ≡ done (c', send_text dc b2))
        × (c'.bridge.id ≡ bridge)
        × (c'.exit.id ≡ exit)
        × IsNonce c'.guard.nonce
        × IsNonce c'.bridge.nonce
        × (dec_l1_msg env from_origin g b2
            ≡ done (add_route key from_origin g, send_text (g.peer tgt).dc b1 ∷ []))
        × (dec_l1_msg env from_guard b b1
            ≡ done (add_route key from_guard b, dial_peer exit [] true false ∷ []))
  unfolding connect_exit seal_next use_nonce
  connect_exit-Dials dc bridge exit c g b from_origin from_guard tgt open_dc agrees_g agrees_b hg hb
        valid known reads unknown =
      let inner = layer_text env.codec env.nacl c.pub_k (moved c.bridge) (connect_text exit) in
      let text =
        layer_text env.codec env.nacl c.pub_k (moved c.guard)
          (wrap_text env.codec env.nacl bridge inner) in
      let c' : Circuit = record c {
        guard = moved c.guard;
        bridge = record (moved c.bridge) { id = bridge };
        exit = record c.exit { id = exit };
      } in
      let send_on : Option ℕ → Outcome (Circuit × Effect) =
        λ d. elim d [ none ↦ panic | some to ↦ done (c', send_text to text) ] in
      let n = next_nonce-IsNonce c.guard hg in
      (
        c',
        text,
        inner,
        ap send_on open_dc,
        refl,
        refl,
        n,
        next_nonce-IsNonce c.bridge hb,
        relay-layer env codec_laws nacl_laws c (moved c.guard) g from_origin bridge inner tgt
            (Agrees-with_nonce env codec_laws nacl_laws c.priv_k c.pub_k (next_nonce c.guard)
              c.guard g agrees_g)
            n.size valid known,
        opened-Dials c c.bridge b from_guard exit agrees_b hb reads unknown,
      )
