-- ===== src/Mined/Registering.antt =====
-- "gettid" for a client that is to be an exit and a guard.
use minedive.Common.{
  ℕ, ◌≤◌, ◌≡◌, refl, sym, ap, ◌∙◌, true, [], ◌∷◌, some, arith, Bytes, bytes, ◌is◌, split, ◌==◌,
  lookup, lookup-insert_self, length, done,
}
use minedive.Codec.{IsCodec, copy}
use minedive.Codec.Slices.{copy_over}
use minedive.Name.Tokens.{get_random_name_total}
use minedive.Protocol.{Cell}
use minedive.Server.State.{MinediveServer, MinediveClient, put}
use minedive.Server.Registry.{add_exit, add_guard}
use minedive.Mined.Registered.{put_self}
use minedive.Mined.{
  Env, gettid, request_of, random_name, set_attrs, register, handle_gettid, handle,
  minedive_dispatch,
}

request_of_gettid : request_of (bytes "gettid") ≡ gettid
unfolding request_of ◌is◌ bytes
request_of_gettid = refl

-- What the attributes "e,g" make of a state.
with_both : ℕ → MinediveServer → MinediveServer
with_both cli s =
    let s1 = add_exit cli (put cli (record (s.heap cli) { exit = true }) s) in
    add_guard cli (put cli (record (s1.heap cli) { guard = true }) s1)

set_attrs-both :
    (cli : ℕ) (s : MinediveServer) → set_attrs cli (split b',' (bytes "e,g")) s ≡ with_both cli s
unfolding set_attrs with_both split bytes ◌is◌
set_attrs-both cli s = refl

-- What the record of the client says.
record IsNamed (s : MinediveServer) (cli : ℕ) (name pk : Bytes) (ws : ℕ) : Type 0 where
  pub has_name : (s.heap cli).name ≡ name
  pub has_key : (s.heap cli).public_key ≡ pk
  pub same_ws : (s.heap cli).ws ≡ ws

module _ (cli : ℕ) (name pk : Bytes) (ws : ℕ) (s : MinediveServer) where
  put-IsNamed :
      (c : MinediveClient)
      → c.name ≡ name
      → c.public_key ≡ pk
      → c.ws ≡ ws
      → IsNamed (put cli c s) cli name pk ws
  put-IsNamed c n k w = record {
    has_name = ap (λ (x : MinediveClient). x.name) (put_self cli c s) ∙ n;
    has_key = ap (λ (x : MinediveClient). x.public_key) (put_self cli c s) ∙ k;
    same_ws = ap (λ (x : MinediveClient). x.ws) (put_self cli c s) ∙ w;
  }

  add_exit-IsNamed : IsNamed s cli name pk ws → IsNamed (add_exit cli s) cli name pk ws
  unfolding add_exit
  add_exit-IsNamed h = record { has_name = h.has_name; has_key = h.has_key; same_ws = h.same_ws }

  add_guard-IsNamed : IsNamed s cli name pk ws → IsNamed (add_guard cli s) cli name pk ws
  unfolding add_guard
  add_guard-IsNamed h = record { has_name = h.has_name; has_key = h.has_key; same_ws = h.same_ws }

  add_exit_registers : IsNamed s cli name pk ws → lookup name (add_exit cli s).exits ≡ some cli
  unfolding add_exit
  add_exit_registers h = rw (h.has_name) (lookup-insert_self name cli s.exits)

  add_guard_registers : IsNamed s cli name pk ws → lookup name (add_guard cli s).guards ≡ some cli
  unfolding add_guard
  add_guard_registers h = rw (h.has_name) (lookup-insert_self name cli s.guards)

-- The client has the name and the key, and both maps have it under the name.
pub record IsRegistered (s : MinediveServer) (cli : ℕ) (name pk : Bytes) : Type 0 where
  pub named : (s.heap cli).name ≡ name
  pub keyed : (s.heap cli).public_key ≡ pk
  pub is_exit : lookup name s.exits ≡ some cli
  pub is_guard : lookup name s.guards ≡ some cli

module _ (s : MinediveServer) (cli : ℕ) (c : MinediveClient) (tkid : Bytes) where
  named_state : MinediveServer
  named_state =
      let s1 = with_both cli (put cli c s) in put cli (record (s1.heap cli) { tkid = tkid }) s1

  with_both-IsRegistered :
      IsRegistered named_state cli c.name c.public_key × ((named_state.heap cli).ws ≡ c.ws)
  unfolding named_state with_both
  with_both-IsRegistered =
      let s1 : MinediveServer = put cli c s in
      let h1 : IsNamed s1 cli c.name c.public_key c.ws =
        put-IsNamed cli c.name c.public_key c.ws s c refl refl refl in
      let s2 : MinediveServer = put cli (record (s1.heap cli) { exit = true }) s1 in
      let h2 : IsNamed s2 cli c.name c.public_key c.ws =
        put-IsNamed cli _ _ _ s1 _ h1.has_name h1.has_key h1.same_ws in
      let s3 : MinediveServer = add_exit cli s2 in
      let h3 : IsNamed s3 cli c.name c.public_key c.ws = add_exit-IsNamed cli _ _ _ s2 h2 in
      let s4 : MinediveServer = put cli (record (s3.heap cli) { guard = true }) s3 in
      let h4 : IsNamed s4 cli c.name c.public_key c.ws =
        put-IsNamed cli _ _ _ s3 _ h3.has_name h3.has_key h3.same_ws in
      let s5 : MinediveServer = add_guard cli s4 in
      let h5 : IsNamed s5 cli c.name c.public_key c.ws = add_guard-IsNamed cli _ _ _ s4 h4 in
      let h6 : IsNamed (put cli (record (s5.heap cli) { tkid = tkid }) s5) cli c.name c.public_key
          c.ws =
        put-IsNamed cli _ _ _ s5 _ h5.has_name h5.has_key h5.same_ws in
      (
        record {
          named = h6.has_name;
          keyed = h6.has_key;
          is_exit =
              unfold put in
              unfold add_guard in add_exit_registers cli c.name c.public_key c.ws s2 h2;
          is_guard = unfold put in add_guard_registers cli c.name c.public_key c.ws s4 h4;
        },
        h6.same_ws,
      )

module _ (env : Env) (laws : IsCodec env.codec) (s : MinediveServer) (cli : ℕ) (m : Cell) where
  register_both :
      (pk : Bytes)
      → m.d1 ≡ bytes "e,g"
      → length pk ≡ length (s.heap cli).public_key
      → length (bytes "stan") ≤ length env.token
      → length (bytes "ken") ≤ length env.token2
      → (s' : MinediveServer) × (reply : Cell) × (register env s cli m pk
          ≡ done (s', ((s.heap cli).ws, reply) ∷ []))
        × IsRegistered s' cli reply.d0 pk
  unfolding register random_name named_state
  register_both pk attrs size stan ken =
      let (name, named) = get_random_name_total env.codec.encode env.token (bytes "stan") stan in
      let (tkid, tagged) = get_random_name_total env.codec.encode env.token2 (bytes "ken") ken in
      let keyed : MinediveClient = record (s.heap cli) {
        public_key = copy (s.heap cli).public_key pk;
        name = name;
      } in
      let (known, same_ws) = with_both-IsRegistered s cli keyed tkid in
      let key : copy (s.heap cli).public_key pk ≡ pk = copy_over (s.heap cli).public_key pk size in
      (
        named_state s cli keyed tkid,
        record m { type = bytes "tid"; d0 = name; d1 = tkid },
        rw (named, register, tagged, attrs, set_attrs-both)
            (ap
              (λ (w : ℕ). done (
                named_state s cli keyed tkid,
                (w, record m { type = bytes "tid"; d0 = name; d1 = tkid }) ∷ [],
              ))
              same_ws),
        record {
          named = known.named;
          keyed = known.keyed ∙ key;
          is_exit = known.is_exit;
          is_guard = known.is_guard;
        },
      )

  -- A client that asks for its name with a key of 32 bytes gets one, and is an exit and a guard of
  -- that name from then on; for tokens that are long enough.
  pub minedive_dispatch-gettid :
      (pk : Bytes)
      → m.type ≡ bytes "gettid"
      → m.d0 ≡ env.codec.encode pk
      → m.d1 ≡ bytes "e,g"
      → length pk ≡ 32
      → length (s.heap cli).public_key ≡ 32
      → length (bytes "stan") ≤ length env.token
      → length (bytes "ken") ≤ length env.token2
      → (s' : MinediveServer) × (reply : Cell) × (minedive_dispatch env s cli m
          ≡ done (s', ((s.heap cli).ws, reply) ∷ []))
        × IsRegistered s' cli reply.d0 pk
  unfolding minedive_dispatch handle handle_gettid
  minedive_dispatch-gettid pk type key attrs size old stan ken =
      let (s', reply, e, h) = register_both pk attrs (size ∙ sym old) stan ken in
      let slice : (env.codec.decode m.d0).slice ≡ pk =
        ap (λ (t : Bytes). (env.codec.decode t).slice) key ∙ (laws.decode-encode pk).0 in
      let good : (env.codec.decode m.d0).good ≡ true =
        ap (λ (t : Bytes). (env.codec.decode t).good) key ∙ (laws.decode-encode pk).1 in
      let passes : (length pk == 32) ≡ true = ground (arith, size) in
      (
        s',
        reply,
        ap (handle env s cli m) (ap request_of type ∙ request_of_gettid)
            ∙ rw (handle_gettid, good, slice, passes) e,
        h,
      )
