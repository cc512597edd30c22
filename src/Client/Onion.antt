-- ===== src/Client/Onion.antt =====
-- A message through a circuit: `Send` of circuit.go at its origin, `DecL1Msg` and `handleL1Msg` of
-- l1peer.go at the guard, the bridge and the exit.
pub mod Confirming
pub mod Connecting
use minedive.Common.{ℕ, ◌≡◌, refl, ap, ◌∙◌, true, [], ◌∷◌, some, arith, Bytes, length, done}
use minedive.Codec.{IsCodec, IsNacl}
use minedive.Wire.{EncL1Msg}
use minedive.Client.State.{Client, Node, Circuit, send_text}
use minedive.Client.Peers.{get_peer}
use minedive.Client.Circuits.{layer, send}
use minedive.Client.Circuits.Sending.{
  IsReady, onion, layer_text, wrap_text, with_nonce, with_nonces, send_total,
}
use minedive.Client.Relay.{Env, handle_l1_msg}
use minedive.Client.Relay.Forward.{handle_l1_msg-wrap}
use minedive.Client.Decrypt.{add_route, dec_l1_msg}
use minedive.Client.Decrypt.Layers.{Agrees, dec_l1_msg-layer}

get_peer-add_route :
    (key to : Bytes) (p : ℕ) (cli : Client) → get_peer (add_route key p cli) to ≡ get_peer cli to
unfolding get_peer add_route
get_peer-add_route key to p cli = ground arith

peer-add_route : (key : Bytes) (p : ℕ) (cli : Client) → (add_route key p cli).peer ≡ cli.peer
unfolding add_route
peer-add_route key p cli = ground arith

module _ (env : Env) (codec_laws : IsCodec env.codec) (nacl_laws : IsNacl env.nacl) where
  -- A node opens its layer, notes where the circuit came from, and passes the rest to the peer
  -- that the layer names.
  relay-layer :
      (c : Circuit) (node : Node) (cli : Client) (p : ℕ) (to b : Bytes) (tgt : ℕ)
      → Agrees env.nacl c.priv_k c.pub_k node cli
      → length node.nonce ≡ 24
      → env.codec.valid to ≡ true
      → get_peer cli to ≡ some tgt
      → dec_l1_msg env p cli
          (layer_text env.codec env.nacl c.pub_k node (wrap_text env.codec env.nacl to b))
        ≡ done (add_route (env.codec.encode c.pub_k) p cli, send_text (cli.peer tgt).dc b ∷ [])
  relay-layer c node cli p to b tgt agrees size h known =
      let key = env.codec.encode c.pub_k in
      dec_l1_msg-layer env codec_laws nacl_laws p cli c.priv_k c.pub_k node agrees size _
      ∙ (handle_l1_msg-wrap env codec_laws (add_route key p cli) p to b tgt h
            (get_peer-add_route key to p cli ∙ known) _
          ∙ ap (λ (f : ℕ → _). done (add_route key p cli, send_text (f tgt).dc b ∷ []))
              (peer-add_route key p cli))

-- The three nodes of a circuit, each with the peer that it hears from: each holds the key that the
-- circuit has for it, the guard knows the bridge, and the bridge knows the exit.
pub record Path3 (env : Env) (c : Circuit) : Type 0 where
  pub guard : Client
  pub bridge : Client
  pub exit : Client
  pub from_origin : ℕ
  pub from_guard : ℕ
  pub from_bridge : ℕ
  pub to_bridge : ℕ
  pub to_exit : ℕ
  pub guard_agrees : Agrees env.nacl c.priv_k c.pub_k c.guard guard
  pub bridge_agrees : Agrees env.nacl c.priv_k c.pub_k c.bridge bridge
  pub exit_agrees : Agrees env.nacl c.priv_k c.pub_k c.exit exit
  pub guard_knows : get_peer guard c.bridge.id ≡ some to_bridge
  pub bridge_knows : get_peer bridge c.exit.id ≡ some to_exit
  pub bridge_id : env.codec.valid c.bridge.id ≡ true
  pub exit_id : env.codec.valid c.exit.id ≡ true

-- What each node does with a message that goes along the path, sealed for the exit under a nonce.
abbrev pub Travels : (env : Env) (c : Circuit) → Path3 env c → Bytes → Bytes → Bytes → Type 0
Travels env c path b3 msg nonce =
    let key = env.codec.encode c.pub_k in
    (b2 b1 : Bytes) × (enc : EncL1Msg) × (dec_l1_msg env path.from_origin path.guard b3
      ≡ done (
        add_route key path.from_origin path.guard,
        send_text (path.guard.peer path.to_bridge).dc b2 ∷ [],
      ))
    × (dec_l1_msg env path.from_guard path.bridge b2
        ≡ done (
          add_route key path.from_guard path.bridge,
          send_text (path.bridge.peer path.to_exit).dc b1 ∷ [],
        ))
    × (dec_l1_msg env path.from_bridge path.exit b1
        ≡ handle_l1_msg env (add_route key path.from_bridge path.exit) path.from_bridge msg
            (some enc))
    × (enc.key ≡ key)
    × (enc.nonce ≡ env.codec.encode nonce)

module _ (env : Env) (codec_laws : IsCodec env.codec) (nacl_laws : IsNacl env.nacl) where
  Agrees-with_nonce :
      (priv_k pub_k n : Bytes) (node : Node) (cli : Client)
      → Agrees env.nacl priv_k pub_k node cli
      → Agrees env.nacl priv_k pub_k (with_nonce node n) cli
  Agrees-with_nonce priv_k pub_k n node cli a = record {
    own_key = a.own_key;
    known_key = a.known_key;
    shared = a.shared;
    circuit_key = a.circuit_key;
    key_size = a.key_size;
  }

  onion-Travels :
      (c : Circuit) (path : Path3 env c) (msg e b g : Bytes)
      → IsReady (with_nonces c e b g)
      → Travels env c path (onion env.codec env.nacl (with_nonces c e b g) msg) msg e
  unfolding layer
  onion-Travels c path msg e b g r =
      let b1 = layer_text env.codec env.nacl c.pub_k (with_nonce c.exit e) msg in
      let b2 =
        layer_text env.codec env.nacl c.pub_k (with_nonce c.bridge b)
          (wrap_text env.codec env.nacl c.exit.id b1) in
      (
        b2,
        b1,
        layer env.codec env.nacl c.pub_k (with_nonce c.exit e) msg,
        relay-layer env codec_laws nacl_laws c (with_nonce c.guard g) path.guard path.from_origin
            c.bridge.id b2 path.to_bridge (Agrees-with_nonce _ _ g c.guard _ path.guard_agrees)
            r.guard.size path.bridge_id path.guard_knows,
        relay-layer env codec_laws nacl_laws c (with_nonce c.bridge b) path.bridge path.from_guard
            c.exit.id b1 path.to_exit (Agrees-with_nonce _ _ b c.bridge _ path.bridge_agrees)
            r.bridge.size path.exit_id path.bridge_knows,
        dec_l1_msg-layer env codec_laws nacl_laws path.from_bridge path.exit c.priv_k c.pub_k
            (with_nonce c.exit e) (Agrees-with_nonce _ _ e c.exit _ path.exit_agrees) r.exit.size
            msg,
        refl,
        refl,
      )

  -- A message that a circuit sends comes to its exit. The circuit has a data channel and nonces of
  -- 24 bytes, and is on a path of nodes that hold the keys the circuit has for them, where the
  -- guard knows the bridge and the bridge the exit; base64, JSON and nacl obey their laws. `Send`
  -- writes one text to the guard; the guard sends one text on to the bridge, the bridge one to the
  -- exit, and there `handleL1Msg` is called with the message that was sent, with the key of the
  -- circuit and the nonce that its exit has then. Each of the three has then a route for that key,
  -- to the peer that it got the message from, unless it had one before.
  pub send-Travels :
      (c : Circuit) (path : Path3 env c) (msg : Bytes) (dc : ℕ)
      → IsReady c
      → c.dc ≡ some dc
      → (c' : Circuit) × (b3 : Bytes) × (send env.codec env.nacl 4 c msg
          ≡ some (done (c', send_text dc b3)))
        × IsReady c'
        × Travels env c path b3 msg c'.exit.nonce
  send-Travels c path msg dc h open_dc =
      let (e, b, g, ready, sent) = send_total env.codec env.nacl c msg dc h open_dc in
      (
        with_nonces c e b g,
        onion env.codec env.nacl (with_nonces c e b g) msg,
        sent,
        ready,
        onion-Travels c path msg e b g ready,
      )
