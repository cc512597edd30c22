-- ===== src/Remined/Departed.antt =====
-- What remined answers after a client has left.
use minedive.Common.{
  ℕ, ◌≡◌, ◌⊎◌, refl, ap, ◌∙◌, inl, inr, Bool, true, false, List, [], ◌∷◌, ◌++◌, Bytes, bytes, ◌is◌,
  if◌then◌else◌, Dict, Outcome, done, panic, Outcome-cases,
}
use minedive.Protocol.{Cell}
use minedive.Server.State.{MinediveServer, Writes}
use minedive.Server.Clients.{disconnect, fwd_to_target}
use minedive.Server.Clients.Removal.{NoneNamed}
use minedive.Server.Clients.Departure.{with_clients, disconnect_unnamed}
use minedive.Remined.{
  Env, Request, getexit, getguard, getbridge, offer, request_of, handle, handle_getexit,
  handle_getguard, avoided, drawn, reply_name, pick, minedive_dispatch,
}

-- The requests for a node.
abbrev pub Draws : Request → Type 0
Draws r = (r ≡ getexit) ⊎ ((r ≡ getguard) ⊎ (r ≡ getbridge))

-- The same answer, of that server.
abbrev pub answer_of {ℓ} :
    {R : Type ℓ}
    → MinediveServer
    → Outcome ((MinediveServer × R) × Writes)
    → Outcome ((MinediveServer × R) × Writes)
answer_of s panic = panic
answer_of s (done ((old, db), out)) = done ((s, db), out)

module _ {R : Type 0} (env : Env R) (s : MinediveServer) (db : R) (cli : ℕ) (m : Cell) (cs : List ℕ)
    (ex gu : Dict ℕ) where
  abbrev s' : MinediveServer
  s' = with_clients s cs ex gu

  reply_name-same :
      (type : Bytes) (nc : List Bytes)
      → reply_name env s' db cli m type nc ≡ answer_of s' (reply_name env s db cli m type nc)
  unfolding reply_name avoided
  reply_name-same type nc = elim (Outcome-cases (pick (avoided env s db cli m) nc)) [
    | inl none_there ↦ rw (none_there, reply_name) refl
    | inr (name, picked) ↦ rw (picked, reply_name) refl
  ]

  unless-same :
      (few : Bool) (type : Bytes) (nc : List Bytes)
      → (if few then done ((s', db), []) else reply_name env s' db cli m type nc)
        ≡ answer_of s' (if few then done ((s, db), []) else reply_name env s db cli m type nc)
  unless-same true type nc = refl
  unless-same false type nc = reply_name-same type nc

  handle-same :
      (r : Request) → Draws r → handle env s' db cli m r ≡ answer_of s' (handle env s db cli m r)
  unfolding handle handle_getexit handle_getguard drawn avoided
  handle-same r (inl e) = rw e (unless-same _ (bytes "exit") (drawn env s db cli m (bytes "EXITS")))
  handle-same r (inr (inl e)) =
      rw e (unless-same _ (bytes "guard") (drawn env s db cli m (bytes "GUARDS")))
  handle-same r (inr (inr e)) =
      rw e (unless-same _ (bytes "bridge") (drawn env s db cli m (bytes "GUARDS")))

request_of_offer : request_of (bytes "offer") ≡ offer
unfolding request_of ◌is◌ bytes
request_of_offer = refl

dispatch_offer :
    {R : Type 0} (env : Env R) (s : MinediveServer) (db : R) (cli : ℕ) (o : Cell)
    → o.type ≡ bytes "offer"
    → minedive_dispatch env s db cli o ≡ done ((s, db), fwd_to_target s o)
unfolding minedive_dispatch handle
dispatch_offer env s db cli o type =
    ap (λ (t : Bytes). handle env s db cli o (request_of t)) type
    ∙ ap (handle env s db cli o) request_of_offer

-- remined goes on proposing a node that has left. Once a client with no namesake has disconnected,
-- every request of another client for an exit, a guard or a bridge is answered as it would have
-- been before, on the same redis and with the same chance, so also with the name of that client;
-- and an offer to that name is written to nobody.
pub departed_proposed :
    {R : Type 0} (env : Env R) (s : MinediveServer) (db : R) (cli p : ℕ) (front back : List ℕ)
    (m : Cell)
    → s.clients ≡ front ++ p ∷ back
    → NoneNamed s (s.heap p).name front
    → NoneNamed s (s.heap p).name back
    → Draws (request_of m.type)
    → (minedive_dispatch env (disconnect p s) db cli m
        ≡ answer_of (disconnect p s) (minedive_dispatch env s db cli m))
      × ((o : Cell)
          → o.type ≡ bytes "offer"
          → o.d1 ≡ (s.heap p).name
          → minedive_dispatch env (disconnect p s) db cli o ≡ done ((disconnect p s, db), []))
unfolding minedive_dispatch handle
departed_proposed env s db cli p front back m listed before after draws =
    let (cs, ex, gu, left, unwritten) = disconnect_unnamed s p front back listed before after in
    (
      rw left (handle-same env s db cli m cs ex gu (request_of m.type) draws),
      λ o type to. rw left (
          dispatch_offer env (with_clients s cs ex gu) db cli o type
          ∙ ap (λ (out : Writes). done ((with_clients s cs ex gu, db), out)) (unwritten o to)),
    )
