-- ===== src/Mined/Reach/Asking.antt =====
-- A request keeps the server well-formed.
use minedive.Common.{ℕ, ◌≤◌, ◌<◌, ◌≡◌, inl, inr, arith, Bytes, done, Outcome}
use minedive.Protocol.{Cell}
use minedive.Server.State.{MinediveServer, Writes}
use minedive.Server.Clients.Occurrences.{occurrences}
use minedive.Mined.{Env, gettid, request_of, minedive_dispatch}
use minedive.Mined.Registered.{IsKeyed, After, minedive_dispatch-IsKeyed}
use minedive.Mined.Frame.{IsFramed, minedive_dispatch-IsFramed}
use minedive.Mined.Reach.{MayAsk, IsConsistent, IsWellFormed}

after :
    (P : MinediveServer → Type 0) {o : Outcome (MinediveServer × Writes)} {s : MinediveServer}
    {out : Writes}
    → o ≡ done (s, out)
    → After P o
    → P s
after P e h = rw e at h

module _ (text_of : ℕ → Bytes) (s : MinediveServer) (cli : ℕ) (s' : MinediveServer) where
  framed-IsConsistent :
      (Q : Type 0)
      → cli < s.allocated
      → IsConsistent text_of s
      → IsFramed s cli Q s'
      → IsConsistent text_of s'
  framed-IsConsistent Q known w f = record {
    exits_flagged = λ cn p e.
        ground
          (arith, f.same_allocated, f.exits_of cn p e, w.exits_flagged cn p, f.exit_kept p, known);
    guards_flagged = λ cn p e.
        ground (
          arith,
          f.same_allocated,
          f.guards_of cn p e,
          w.guards_flagged cn p,
          f.guard_kept p,
          known,
        );
    once = λ p. ground (arith, f.same_clients, w.once p);
    below = λ p h. ground (arith, f.same_clients, f.same_allocated, w.below p);
    counted = ground (arith, f.same_next_id, f.same_allocated, w.counted);
    ids = λ p h. ground (arith, f.same_id p, f.same_allocated, w.ids p);
  }

  framed-IsWellFormed :
      (Q : Type 0)
      → (Q → 1 ≤ occurrences cli s.clients)
      → cli < s.allocated
      → IsWellFormed text_of s
      → IsFramed s cli Q s'
      → IsKeyed s'
      → IsWellFormed text_of s'
  framed-IsWellFormed Q listed known w f k = record {
    keyed = k;
    exits_listed =
        λ cn p e. ground (arith, f.same_clients, f.exits_of cn p e, w.exits_listed cn p, listed);
    guards_listed =
        λ cn p e. ground (arith, f.same_clients, f.guards_of cn p e, w.guards_listed cn p, listed);
    consistent = framed-IsConsistent Q known w.consistent f;
  }

  pub minedive_dispatch-IsConsistent :
      (env : Env) (m : Cell) (out : Writes)
      → IsConsistent text_of s
      → cli < s.allocated
      → minedive_dispatch env s cli m ≡ done (s', out)
      → IsConsistent text_of s'
  minedive_dispatch-IsConsistent env m out w known e =
      framed-IsConsistent _ known w (after _ e (minedive_dispatch-IsFramed env s cli m))

  pub minedive_dispatch-IsWellFormed :
      (env : Env) (m : Cell) (out : Writes)
      → IsWellFormed text_of s
      → MayAsk s cli m
      → cli < s.allocated
      → minedive_dispatch env s cli m ≡ done (s', out)
      → IsWellFormed text_of s'
  minedive_dispatch-IsWellFormed env m out w (inl (listed, fresh)) known e =
      framed-IsWellFormed _ (λ q. listed) known w
        (after _ e (minedive_dispatch-IsFramed env s cli m))
        (after IsKeyed e (minedive_dispatch-IsKeyed env s cli m w.keyed (inl fresh)))
  minedive_dispatch-IsWellFormed env m out w (inr (other, h)) known e =
      framed-IsWellFormed (request_of m.type ≡ gettid) (λ q. absurd (other q)) known w
        (after _ e (minedive_dispatch-IsFramed env s cli m))
        (after IsKeyed e (minedive_dispatch-IsKeyed env s cli m w.keyed (inr (other, h))))
