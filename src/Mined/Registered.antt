-- ===== src/Mined/Registered.antt =====
-- The maps `exits` and `guards` stay in step with the clients that they point to.
use minedive.Common.{
  ℕ, ◌≡◌, refl, ◌≢◌, ◌⊎◌, inl, inr, true, List, [], ◌∷◌, Option, none, some, arith, Bytes, bytes,
  ◌is◌, is_iff, if◌then◌else◌, lookup, lookup-insert, Outcome, done, panic, ◌>>=◌, Outcome-cases,
  Bool-cases, split,
}
use minedive.Codec.{copy}
use minedive.Protocol.{Cell}
use minedive.Server.State.{MinediveServer, MinediveClient, Writes, put}
use minedive.Server.Registry.{add_exit, add_guard}
use minedive.Server.Aliases.{send_key}
use minedive.Mined.{
  Env, Request, gettid, gettssid, gettksid, pubk, getk, getkey, getexit, getguard, getbridge,
  request_of, set_attrs, random_name, register, handle_gettid, handle_gettssid, handle_gettksid,
  handle_pubk, reply_node, handle, minedive_dispatch,
}

-- Every entry points to a client of that name, whose flag is set.
pub record IsKeyed (s : MinediveServer) : Type 0 where
  pub exits_named :
      (cn : Bytes) (p : ℕ)
      → lookup cn s.exits ≡ some p
      → ((s.heap p).name ≡ cn) × ((s.heap p).exit ≡ true)
  pub guards_named :
      (cn : Bytes) (p : ℕ)
      → lookup cn s.guards ≡ some p
      → ((s.heap p).name ≡ cn) × ((s.heap p).guard ≡ true)

-- No entry points to the client.
pub record IsUnregistered (s : MinediveServer) (cli : ℕ) : Type 0 where
  pub no_exit : (cn : Bytes) → lookup cn s.exits ≢ some cli
  pub no_guard : (cn : Bytes) → lookup cn s.guards ≢ some cli

pub put-IsKeyed_fresh :
    (p : ℕ) (c : MinediveClient) (s : MinediveServer)
    → IsKeyed s
    → IsUnregistered s p
    → IsKeyed (put p c s)
unfolding put
put-IsKeyed_fresh p c s k u = record {
  exits_named = λ cn q e. ground (arith, k.exits_named cn q e, u.no_exit cn);
  guards_named = λ cn q e. ground (arith, k.guards_named cn q e, u.no_guard cn);
}

put-IsKeyed :
    (p : ℕ) (c : MinediveClient) (s : MinediveServer)
    → IsKeyed s
    → c.name ≡ (s.heap p).name
    → (c.exit ≡ true) ⊎ (c.exit ≡ (s.heap p).exit)
    → (c.guard ≡ true) ⊎ (c.guard ≡ (s.heap p).guard)
    → IsKeyed (put p c s)
unfolding put
put-IsKeyed p c s k hn he hg = record {
  exits_named = λ cn q e. ground (arith, k.exits_named cn q e);
  guards_named = λ cn q e. ground (arith, k.guards_named cn q e);
}

add_exit-IsKeyed :
    (cli : ℕ) (s : MinediveServer) → IsKeyed s → (s.heap cli).exit ≡ true → IsKeyed (add_exit cli s)
unfolding add_exit
add_exit-IsKeyed cli s k h = record {
  exits_named = λ cn q e. ground (
    arith,
    k.exits_named cn q,
    lookup-insert cn (s.heap cli).name cli s.exits,
    is_iff (s.heap cli).name cn,
  );
  guards_named = k.guards_named;
}

add_guard-IsKeyed :
    (cli : ℕ) (s : MinediveServer)
    → IsKeyed s
    → (s.heap cli).guard ≡ true
    → IsKeyed (add_guard cli s)
unfolding add_guard
add_guard-IsKeyed cli s k h = record {
  exits_named = k.exits_named;
  guards_named = λ cn q e. ground (
    arith,
    k.guards_named cn q,
    lookup-insert cn (s.heap cli).name cli s.guards,
    is_iff (s.heap cli).name cn,
  );
}

pub put_self : (p : ℕ) (c : MinediveClient) (s : MinediveServer) → (put p c s).heap p ≡ c
unfolding put
put_self p c s = ground arith

set_attrs-IsKeyed :
    (cli : ℕ) (attrs : List Bytes) (s : MinediveServer)
    → IsKeyed s
    → IsKeyed (set_attrs cli attrs s)
unfolding set_attrs
set_attrs-IsKeyed cli [] s k = k
set_attrs-IsKeyed cli (attr ∷ attrs) s k = set_attrs-IsKeyed cli attrs _ one
  where
    as_exit : MinediveServer
    as_exit = put cli (record (s.heap cli) { exit = true }) s

    as_guard : MinediveServer
    as_guard = put cli (record (s.heap cli) { guard = true }) s

    one : IsKeyed (
        if attr is bytes "e"
        then add_exit cli as_exit
        else if attr is bytes "g"
        then add_guard cli as_guard
        else s)
    one = elim (Bool-cases (attr is bytes "e")) [
      | inl e ↦ rw e (
          add_exit-IsKeyed cli as_exit (put-IsKeyed cli _ s k refl (inl refl) (inr refl))
            (rw put_self refl))
      | inr ne ↦ rw ne (elim (Bool-cases (attr is bytes "g")) [
        | inl g ↦ rw g (
            add_guard-IsKeyed cli as_guard (put-IsKeyed cli _ s k refl (inr refl) (inl refl))
              (rw put_self refl))
        | inr ng ↦ rw ng k
      ])
    ]

-- The state that a call leaves, if it returns, is one of `P`.
abbrev pub After : (MinediveServer → Type 0) → Outcome (MinediveServer × Writes) → Type 0
After P (done (s, out)) = P s
After P panic = Unit

module _ (env : Env) (s : MinediveServer) (cli : ℕ) (m : Cell) (k : IsKeyed s) where
  register-IsKeyed : (pk : Bytes) → IsUnregistered s cli → After IsKeyed (register env s cli m pk)
  unfolding register
  register-IsKeyed pk u = elim (Outcome-cases (random_name env s cli m env.token (bytes "stan"))) [
    | inl e ↦ rw e tt
    | inr (name, e) ↦
        rw e (elim (Outcome-cases (random_name env s cli m env.token2 (bytes "ken"))) [
          | inl f ↦ rw f tt
          | inr (tkid, f) ↦ rw f (
              let keyed : MinediveClient = record (s.heap cli) {
                public_key = copy (s.heap cli).public_key pk;
                name = name;
              } in
              put-IsKeyed cli _ (set_attrs cli (split b',' m.d1) (put cli keyed s))
                (set_attrs-IsKeyed cli (split b',' m.d1) _ (put-IsKeyed_fresh cli keyed s k u)) refl
                (inr refl) (inr refl))
        ])
  ]

  handle_gettid-IsKeyed : IsUnregistered s cli → After IsKeyed (handle_gettid env s cli m)
  unfolding handle_gettid
  handle_gettid-IsKeyed u = ground (arith, register-IsKeyed (env.codec.decode m.d0).slice u)

  handle_gettssid-IsKeyed : IsUnregistered s cli → After IsKeyed (handle_gettssid env s cli m)
  unfolding handle_gettssid
  handle_gettssid-IsKeyed u =
      elim (Outcome-cases (random_name env s cli m env.token (bytes "stan"))) [
        | inl e ↦ rw e tt
        | inr (name, e) ↦ rw e (put-IsKeyed_fresh cli _ s k u)
      ]

  handle_gettksid-IsKeyed : After IsKeyed (handle_gettksid env s cli m)
  unfolding handle_gettksid
  handle_gettksid-IsKeyed = elim (Outcome-cases (random_name env s cli m env.token (bytes "ken"))) [
    | inl e ↦ rw e tt
    | inr (tkid, e) ↦ rw e (put-IsKeyed cli _ s k refl (inr refl) (inr refl))
  ]

  handle_pubk-IsKeyed : After IsKeyed (handle_pubk env s cli m)
  unfolding handle_pubk
  handle_pubk-IsKeyed = elim (Bool-cases (env.codec.decode m.d0).good) [
    | inl good ↦ rw good (put-IsKeyed cli _ s k refl (inr refl) (inr refl))
    | inr bad ↦ rw bad k
  ]

  reply_node-IsKeyed :
      (type : Bytes) (nc : Option ℕ) → After IsKeyed (reply_node env s cli m type nc)
  unfolding reply_node
  reply_node-IsKeyed type none = k
  reply_node-IsKeyed type (some nc) = k

  chosen-IsKeyed :
      (type : Bytes) (o : Outcome (Option ℕ))
      → After IsKeyed (o >>= λ nc. reply_node env s cli m type nc)
  chosen-IsKeyed type panic = tt
  chosen-IsKeyed type (done nc) = reply_node-IsKeyed type nc

  handle-IsKeyed :
      (r : Request)
      → IsUnregistered s cli ⊎ ((r ≢ gettid) × (r ≢ gettssid))
      → After IsKeyed (handle env s cli m r)
  unfolding handle
  handle-IsKeyed gettid (inl u) = handle_gettid-IsKeyed u
  handle-IsKeyed gettid (inr (h, _)) = absurd (h refl)
  handle-IsKeyed gettssid (inl u) = handle_gettssid-IsKeyed u
  handle-IsKeyed gettssid (inr (_, h)) = absurd (h refl)
  handle-IsKeyed gettksid _ = handle_gettksid-IsKeyed
  handle-IsKeyed pubk _ = handle_pubk-IsKeyed
  handle-IsKeyed getk _ = k
  handle-IsKeyed getkey _ = elim (Outcome-cases (send_key env.codec env.nacl s cli m)) [
    | inl e ↦ rw e tt
    | inr (out, e) ↦ rw e k
  ]
  handle-IsKeyed getexit _ = chosen-IsKeyed (bytes "exit") _
  handle-IsKeyed getguard _ = chosen-IsKeyed (bytes "guard") _
  handle-IsKeyed getbridge _ = chosen-IsKeyed (bytes "bridge") _
  handle-IsKeyed _ _ = k

  -- Whatever the request, the maps stay in step with the clients, if they were; for "gettid" and
  -- "gettssid", which give the client a new name, no map may point to that client yet.
  pub minedive_dispatch-IsKeyed :
      IsUnregistered s cli ⊎ ((request_of m.type ≢ gettid) × (request_of m.type ≢ gettssid))
      → After IsKeyed (minedive_dispatch env s cli m)
  unfolding minedive_dispatch
  minedive_dispatch-IsKeyed h = handle-IsKeyed (request_of m.type) h
