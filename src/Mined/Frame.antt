-- ===== src/Mined/Frame.antt =====
-- What no request changes: the slice `clients`, and the entries of the other clients.
use minedive.Common.{
  ℕ, ◌≡◌, refl, ◌⊎◌, inl, inr, List, [], ◌∷◌, Option, none, some, arith, Bytes, bytes, ◌is◌, true,
  if◌then◌else◌, lookup, lookup-insert, Outcome, done, panic, ◌>>=◌, Outcome-cases, Bool-cases,
  split,
}
use minedive.Codec.{copy}
use minedive.Protocol.{Cell}
use minedive.Server.State.{MinediveServer, MinediveClient, put}
use minedive.Server.Registry.{add_exit, add_guard}
use minedive.Server.Aliases.{send_key}
use minedive.Mined.{
  Env, Request, gettid, gettssid, gettksid, pubk, getkey, getexit, getguard, getbridge, request_of,
  set_attrs, random_name, register, handle_gettid, handle_gettssid, handle_gettksid, handle_pubk,
  reply_node, handle, minedive_dispatch,
}
use minedive.Mined.Registered.{After, put_self}

-- A client's record, and its own entries in the maps where `Q` holds, are all that lies between the
-- two states.
pub record IsFramed (s : MinediveServer) (cli : ℕ) (Q : Type 0) (s' : MinediveServer) : Type 0 where
  pub same_clients : s'.clients ≡ s.clients
  pub same_allocated : s'.allocated ≡ s.allocated
  pub same_next_id : s'.next_id ≡ s.next_id
  pub same_id : (p : ℕ) → (s'.heap p).id ≡ (s.heap p).id
  pub exit_kept : (p : ℕ) → (s.heap p).exit ≡ true → (s'.heap p).exit ≡ true
  pub guard_kept : (p : ℕ) → (s.heap p).guard ≡ true → (s'.heap p).guard ≡ true
  pub exits_of :
      (cn : Bytes) (p : ℕ)
      → lookup cn s'.exits ≡ some p
      → (lookup cn s.exits ≡ some p) ⊎ ((p ≡ cli) × Q × ((s'.heap p).exit ≡ true))
  pub guards_of :
      (cn : Bytes) (p : ℕ)
      → lookup cn s'.guards ≡ some p
      → (lookup cn s.guards ≡ some p) ⊎ ((p ≡ cli) × Q × ((s'.heap p).guard ≡ true))

refl-IsFramed : (s : MinediveServer) (cli : ℕ) (Q : Type 0) → IsFramed s cli Q s
refl-IsFramed s cli Q = record {
  same_clients = refl;
  same_allocated = refl;
  same_next_id = refl;
  same_id = λ p. refl;
  exit_kept = λ p h. h;
  guard_kept = λ p h. h;
  exits_of = λ cn p e. inl e;
  guards_of = λ cn p e. inl e;
}

module _ (s : MinediveServer) (cli : ℕ) (Q : Type 0) (t : MinediveServer)
    (f : IsFramed s cli Q t) where
  put-IsFramed :
      (c : MinediveClient)
      → c.id ≡ (t.heap cli).id
      → (c.exit ≡ true) ⊎ (c.exit ≡ (t.heap cli).exit)
      → (c.guard ≡ true) ⊎ (c.guard ≡ (t.heap cli).guard)
      → IsFramed s cli Q (put cli c t)
  unfolding put
  put-IsFramed c h he hg = record {
    same_clients = f.same_clients;
    same_allocated = f.same_allocated;
    same_next_id = f.same_next_id;
    same_id = λ p. ground (arith, f.same_id p, h);
    exit_kept = λ p k. ground (arith, f.exit_kept p k);
    guard_kept = λ p k. ground (arith, f.guard_kept p k);
    exits_of = λ cn p e. ground (arith, f.exits_of cn p e);
    guards_of = λ cn p e. ground (arith, f.guards_of cn p e);
  }

  add_exit-IsFramed : Q → (t.heap cli).exit ≡ true → IsFramed s cli Q (add_exit cli t)
  unfolding add_exit
  add_exit-IsFramed q flagged = record {
    same_clients = f.same_clients;
    same_allocated = f.same_allocated;
    same_next_id = f.same_next_id;
    same_id = f.same_id;
    exit_kept = f.exit_kept;
    guard_kept = f.guard_kept;
    exits_of = λ cn p e.
        ground (arith, f.exits_of cn p, q, flagged, lookup-insert cn (t.heap cli).name cli t.exits);
    guards_of = f.guards_of;
  }

  add_guard-IsFramed : Q → (t.heap cli).guard ≡ true → IsFramed s cli Q (add_guard cli t)
  unfolding add_guard
  add_guard-IsFramed q flagged = record {
    same_clients = f.same_clients;
    same_allocated = f.same_allocated;
    same_next_id = f.same_next_id;
    same_id = f.same_id;
    exit_kept = f.exit_kept;
    guard_kept = f.guard_kept;
    exits_of = f.exits_of;
    guards_of = λ cn p e.
        ground
          (arith, f.guards_of cn p, q, flagged, lookup-insert cn (t.heap cli).name cli t.guards);
  }

set_attrs-IsFramed :
    (s : MinediveServer) (cli : ℕ) (Q : Type 0) (attrs : List Bytes) (t : MinediveServer)
    → Q
    → IsFramed s cli Q t
    → IsFramed s cli Q (set_attrs cli attrs t)
unfolding set_attrs
set_attrs-IsFramed s cli Q [] t q f = f
set_attrs-IsFramed s cli Q (attr ∷ attrs) t q f = set_attrs-IsFramed s cli Q attrs _ q one
  where
    as_exit : MinediveServer
    as_exit = put cli (record (t.heap cli) { exit = true }) t

    as_guard : MinediveServer
    as_guard = put cli (record (t.heap cli) { guard = true }) t

    one : IsFramed s cli Q (
        if attr is bytes "e"
        then add_exit cli as_exit
        else if attr is bytes "g"
        then add_guard cli as_guard
        else t)
    one = elim (Bool-cases (attr is bytes "e")) [
      | inl e ↦ rw e (
          add_exit-IsFramed s cli Q as_exit (put-IsFramed s cli Q t f _ refl (inl refl) (inr refl))
            q (rw put_self refl))
      | inr ne ↦ rw ne (elim (Bool-cases (attr is bytes "g")) [
        | inl g ↦ rw g (
            add_guard-IsFramed s cli Q as_guard
              (put-IsFramed s cli Q t f _ refl (inr refl) (inl refl)) q (rw put_self refl))
        | inr ng ↦ rw ng f
      ])
    ]

module _ (env : Env) (s : MinediveServer) (cli : ℕ) (m : Cell) where
  same : (Q : Type 0) → IsFramed s cli Q s
  same Q = refl-IsFramed s cli Q

  register-IsFramed :
      (Q : Type 0) (pk : Bytes) → Q → After (IsFramed s cli Q) (register env s cli m pk)
  unfolding register
  register-IsFramed Q pk q =
      elim (Outcome-cases (random_name env s cli m env.token (bytes "stan"))) [
        | inl e ↦ rw e tt
        | inr (name, e) ↦
            rw e (elim (Outcome-cases (random_name env s cli m env.token2 (bytes "ken"))) [
              | inl f ↦ rw f tt
              | inr (tkid, f) ↦ rw f (
                  let keyed : MinediveClient = record (s.heap cli) {
                    public_key = copy (s.heap cli).public_key pk;
                    name = name;
                  } in
                  put-IsFramed s cli Q (set_attrs cli (split b',' m.d1) (put cli keyed s))
                    (set_attrs-IsFramed s cli Q (split b',' m.d1) _ q
                      (put-IsFramed s cli Q s (same Q) keyed refl (inr refl) (inr refl)))
                    _ refl (inr refl) (inr refl))
            ])
      ]

  handle_gettid-IsFramed : (Q : Type 0) → Q → After (IsFramed s cli Q) (handle_gettid env s cli m)
  unfolding handle_gettid
  handle_gettid-IsFramed Q q =
      ground (arith, register-IsFramed Q (env.codec.decode m.d0).slice q, same Q)

  handle_gettssid-IsFramed : (Q : Type 0) → After (IsFramed s cli Q) (handle_gettssid env s cli m)
  unfolding handle_gettssid
  handle_gettssid-IsFramed Q =
      elim (Outcome-cases (random_name env s cli m env.token (bytes "stan"))) [
        | inl e ↦ rw e tt
        | inr (name, e) ↦ rw e (put-IsFramed s cli Q s (same Q) _ refl (inr refl) (inr refl))
      ]

  handle_gettksid-IsFramed : (Q : Type 0) → After (IsFramed s cli Q) (handle_gettksid env s cli m)
  unfolding handle_gettksid
  handle_gettksid-IsFramed Q =
      elim (Outcome-cases (random_name env s cli m env.token (bytes "ken"))) [
        | inl e ↦ rw e tt
        | inr (tkid, e) ↦ rw e (put-IsFramed s cli Q s (same Q) _ refl (inr refl) (inr refl))
      ]

  handle_pubk-IsFramed : (Q : Type 0) → After (IsFramed s cli Q) (handle_pubk env s cli m)
  unfolding handle_pubk
  handle_pubk-IsFramed Q = elim (Bool-cases (env.codec.decode m.d0).good) [
    | inl good ↦ rw good (put-IsFramed s cli Q s (same Q) _ refl (inr refl) (inr refl))
    | inr bad ↦ rw bad (same Q)
  ]

  chosen-IsFramed :
      (Q : Type 0) (type : Bytes) (o : Outcome (Option ℕ))
      → After (IsFramed s cli Q) (o >>= λ nc. reply_node env s cli m type nc)
  unfolding reply_node
  chosen-IsFramed Q type panic = tt
  chosen-IsFramed Q type (done none) = same Q
  chosen-IsFramed Q type (done (some nc)) = same Q

  handle-IsFramed : (r : Request) → After (IsFramed s cli (r ≡ gettid)) (handle env s cli m r)
  unfolding handle
  handle-IsFramed gettid = handle_gettid-IsFramed _ refl
  handle-IsFramed gettssid = handle_gettssid-IsFramed _
  handle-IsFramed gettksid = handle_gettksid-IsFramed _
  handle-IsFramed pubk = handle_pubk-IsFramed _
  handle-IsFramed getkey = elim (Outcome-cases (send_key env.codec env.nacl s cli m)) [
    | inl e ↦ rw e tt
    | inr (out, e) ↦ rw e (same _)
  ]
  handle-IsFramed getexit = chosen-IsFramed _ (bytes "exit") _
  handle-IsFramed getguard = chosen-IsFramed _ (bytes "guard") _
  handle-IsFramed getbridge = chosen-IsFramed _ (bytes "bridge") _
  handle-IsFramed _ = same _

  pub minedive_dispatch-IsFramed :
      After (IsFramed s cli (request_of m.type ≡ gettid)) (minedive_dispatch env s cli m)
  unfolding minedive_dispatch
  minedive_dispatch-IsFramed = handle-IsFramed (request_of m.type)
