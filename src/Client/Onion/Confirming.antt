-- ===== src/Client/Onion/Confirming.antt =====
-- The test of a new circuit: `SetupCircuit` sends "test" through it, and waits for the state "OK".
pub mod Searching
use minedive.Common.{
  ℕ, ◌≡◌, ◌∙◌, List, [], ◌∷◌, none, some, ◌⊎◌, inl, inr, Bytes, bytes, lookup, done,
  lookup-insert_self,
}
use minedive.Codec.{IsCodec, Nacl, IsNacl}
use minedive.Client.State.{Client, Node, Circuit, send_text, put_circuit}
use minedive.Client.Circuits.{send}
use minedive.Client.Circuits.Sending.{IsReady, with_nonce, with_nonces, onion, send_total}
use minedive.Client.Relay.{Env}
use minedive.Client.Relay.Tests.{
  ReadsTests, test_text, test2_text, handle_l1_msg_test, handle_l1_msg_test2,
}
use minedive.Client.Decrypt.{add_route, dec_l1_msg}
use minedive.Client.Decrypt.Layers.{Agrees}
use minedive.Client.Replies.{BackPath, reply_circuit-Returns}
use minedive.Client.Onion.{Path3, onion-Travels, Agrees-with_nonce}

-- The node has no route for the key, or the one to that peer.
abbrev pub IsFree : Bytes → ℕ → Client → Type 0
IsFree key p cli = (lookup key cli.routes ≡ none) ⊎ (lookup key cli.routes ≡ some p)

route-add_route :
    (key : Bytes) (p : ℕ) (cli : Client)
    → IsFree key p cli
    → lookup key (add_route key p cli).routes ≡ some p
unfolding add_route
route-add_route key p cli (inl h) = rw (h, add_route) (lookup-insert_self key p cli.routes)
route-add_route key p cli (inr h) = rw (h, add_route) h

Agrees-add_route :
    (nacl : Nacl) (priv_k pub_k key : Bytes) (node : Node) (p : ℕ) (cli : Client)
    → Agrees nacl priv_k pub_k node cli
    → IsFree key p cli
    → Agrees nacl priv_k pub_k node (add_route key p cli)
unfolding add_route
Agrees-add_route nacl priv_k pub_k key node p cli a (inr h) = rw (h, add_route) a
Agrees-add_route nacl priv_k pub_k key node p cli a (inl h) =
    rw (h, add_route)
      (record {
        own_key = a.own_key;
        known_key = a.known_key;
        shared = a.shared;
        circuit_key = a.circuit_key;
        key_size = a.key_size;
      })

-- The node that built the circuit, which it has as its first, and the three others, as they are
-- before any message of it or after some.
pub record IsUsable (env : Env) (c : Circuit) (path : Path3 env c) (origin : Client) : Type 0 where
  pub own : ℕ
  pub others : List ℕ
  pub guard_free : IsFree (env.codec.encode c.pub_k) path.from_origin path.guard
  pub bridge_free : IsFree (env.codec.encode c.pub_k) path.from_guard path.bridge
  pub exit_free : IsFree (env.codec.encode c.pub_k) path.from_bridge path.exit
  pub no_route : lookup (env.codec.encode c.pub_k) origin.routes ≡ none
  pub first : origin.circuits ≡ own ∷ others
  pub id : (origin.circuit own).circuit_id ≡ env.codec.encode c.pub_k
  pub key : (origin.circuit own).exit.tkey ≡ c.exit.tkey

module _ (env : Env) (codec_laws : IsCodec env.codec) (nacl_laws : IsNacl env.nacl) where
  back :
      (c : Circuit) (path : Path3 env c) (origin : Client) (e b g : Bytes)
      → IsUsable env c path origin
      → BackPath env (with_nonces c e b g)
  back c path origin e b g new =
      let key = env.codec.encode c.pub_k in
      record {
        exit = add_route key path.from_bridge path.exit;
        bridge = add_route key path.from_guard path.bridge;
        guard = add_route key path.from_origin path.guard;
        origin = origin;
        to_bridge = path.from_bridge;
        to_guard = path.from_guard;
        to_origin = path.from_origin;
        own = new.own;
        others = new.others;
        agrees =
            Agrees-add_route env.nacl c.priv_k c.pub_k key (with_nonce c.exit e) path.from_bridge
              path.exit
              (Agrees-with_nonce env codec_laws nacl_laws c.priv_k c.pub_k e c.exit path.exit
                path.exit_agrees)
              new.exit_free;
        exit_route = route-add_route key path.from_bridge path.exit new.exit_free;
        bridge_route = route-add_route key path.from_guard path.bridge new.bridge_free;
        guard_route = route-add_route key path.from_origin path.guard new.guard_free;
        no_route = new.no_route;
        first = new.first;
        id = new.id;
        key = new.key;
      }

module _ (env : Env) (codec_laws : IsCodec env.codec) (nacl_laws : IsNacl env.nacl)
    (reads : ReadsTests env.codec) where
  -- The test of a circuit succeeds. `SetupCircuit` sends "test" on a circuit that is ready, on a
  -- path of nodes that have no other route for it; the origin holds it as its first circuit. Then
  -- one text goes from node to node, over the guard and the bridge to the exit; the exit answers
  -- with one text, which the bridge and the guard pass on; and the step of the origin on it sets
  -- the state of the circuit to "OK", and does nothing else. Base64, JSON and nacl obey their laws.
  pub send_test-Confirms :
      (c : Circuit) (path : Path3 env c) (origin : Client) (dc p q r : ℕ)
      → (new : IsUsable env c path origin) → IsReady c
      → c.dc ≡ some dc
      → let key = env.codec.encode c.pub_k in
        let guard = add_route key path.from_origin path.guard in
        let bridge = add_route key path.from_guard path.bridge in
        let exit = add_route key path.from_bridge path.exit in
        (c' : Circuit) × (b3 b2 b1 b : Bytes) × (send env.codec env.nacl 4 c test_text
          ≡ some (done (c', send_text dc b3)))
        × (dec_l1_msg env path.from_origin path.guard b3
            ≡ done (guard, send_text (path.guard.peer path.to_bridge).dc b2 ∷ []))
        × (dec_l1_msg env path.from_guard path.bridge b2
            ≡ done (bridge, send_text (path.bridge.peer path.to_exit).dc b1 ∷ []))
        × (dec_l1_msg env path.from_bridge path.exit b1
            ≡ done (exit, send_text (exit.peer path.from_bridge).dc b ∷ []))
        × (dec_l1_msg env p bridge b
            ≡ done (bridge, send_text (bridge.peer path.from_guard).dc b ∷ []))
        × (dec_l1_msg env q guard b
            ≡ done (guard, send_text (guard.peer path.from_origin).dc b ∷ []))
        × (dec_l1_msg env r origin b
            ≡ done (
              put_circuit new.own (record (origin.circuit new.own) { state = bytes "OK" }) origin,
              [],
            ))
  unfolding back
  send_test-Confirms c path origin dc p q r new h open_dc =
      let key = env.codec.encode c.pub_k in
      let exit = add_route key path.from_bridge path.exit in
      let (e, b', g, ready, sent) = send_total env.codec env.nacl c test_text dc h open_dc in
      let c' = with_nonces c e b' g in
      let (b2, b1, enc, at_guard, at_bridge, at_exit, with_key, under) =
        onion-Travels env codec_laws nacl_laws c path test_text e b' g ready in
      let (b, replied, by_bridge, by_guard, by_origin) =
        reply_circuit-Returns env codec_laws nacl_laws c'
          (back env codec_laws nacl_laws c path origin e b' g new) test2_text p q r ready.exit in
      (
        c',
        onion env.codec env.nacl c' test_text,
        b2,
        b1,
        b,
        sent,
        at_guard,
        at_bridge,
        at_exit
            ∙ handle_l1_msg_test env reads exit path.from_bridge enc _
                (rw (with_key, under) replied),
        by_bridge,
        by_guard,
        by_origin ∙ handle_l1_msg_test2 env reads origin r new.own new.others none new.first,
      )
