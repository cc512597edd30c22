-- ===== src/Mined/Reach/Opening.antt =====
-- A new connection keeps the server well-formed.
use minedive.Common.{ℕ, refl, [], ◌∷◌, arith, Bytes, lookup}
use minedive.Server.State.{MinediveServer, put, init_minedive_server}
use minedive.Server.Clients.{accept}
use minedive.Server.Clients.Occurrences.{occurrences, occurrences-append}
use minedive.Mined.Registered.{IsKeyed, IsUnregistered, put-IsKeyed_fresh}
use minedive.Mined.Reach.{IsConsistent, IsWellFormed}

pub init-IsConsistent : (text_of : ℕ → Bytes) → IsConsistent text_of init_minedive_server
unfolding init_minedive_server lookup occurrences
init-IsConsistent text_of = record {
  exits_flagged = λ cn p e. cc;
  guards_flagged = λ cn p e. cc;
  once = λ p. omega arith;
  below = λ p h. omega (arith, h);
  counted = refl;
  ids = λ p h. absurd (omega (arith, h));
}

pub init-IsWellFormed : (text_of : ℕ → Bytes) → IsWellFormed text_of init_minedive_server
unfolding init_minedive_server lookup
init-IsWellFormed text_of = record {
  keyed = record { exits_named = λ cn p e. cc; guards_named = λ cn p e. cc };
  exits_listed = λ cn p e. cc;
  guards_listed = λ cn p e. cc;
  consistent = init-IsConsistent text_of;
}

-- No entry points to what is not allocated.
fresh-IsUnregistered :
    (text_of : ℕ → Bytes) (s : MinediveServer)
    → IsConsistent text_of s
    → IsUnregistered s s.allocated
fresh-IsUnregistered text_of s w = record {
  no_exit = λ cn e. omega (arith, (w.exits_flagged cn s.allocated e).0);
  no_guard = λ cn e. omega (arith, (w.guards_flagged cn s.allocated e).0);
}

module _ (text_of : ℕ → Bytes) (host remote_addr secret : Bytes) (ws : ℕ) (s : MinediveServer) where
  pub accept-IsConsistent :
      IsConsistent text_of s → IsConsistent text_of (accept text_of host remote_addr secret ws s).0
  unfolding accept put occurrences
  accept-IsConsistent w = record {
    exits_flagged = λ cn p e. ground (arith, w.exits_flagged cn p e);
    guards_flagged = λ cn p e. ground (arith, w.guards_flagged cn p e);
    once =
        λ p. ground (arith, w.once p, w.below p, occurrences-append p s.clients (s.allocated ∷ []));
    below = λ p h. ground (arith, w.below p, occurrences-append p s.clients (s.allocated ∷ []));
    counted = omega (arith, w.counted);
    ids = λ p h. ground (arith, w.ids p, w.counted);
  }

  pub accept-IsWellFormed :
      IsWellFormed text_of s → IsWellFormed text_of (accept text_of host remote_addr secret ws s).0
  unfolding accept put occurrences
  accept-IsWellFormed w =
      let k : IsKeyed (put s.allocated _ s) =
        put-IsKeyed_fresh s.allocated _ s w.keyed (fresh-IsUnregistered text_of s w.consistent) in
      record {
        keyed = record { exits_named = k.exits_named; guards_named = k.guards_named };
        exits_listed = λ cn p e.
            omega (arith, w.exits_listed cn p e, occurrences-append p s.clients (s.allocated ∷ []));
        guards_listed = λ cn p e.
            omega
              (arith, w.guards_listed cn p e, occurrences-append p s.clients (s.allocated ∷ []));
        consistent = accept-IsConsistent w.consistent;
      }
