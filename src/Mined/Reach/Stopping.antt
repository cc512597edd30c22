-- ===== src/Mined/Reach/Stopping.antt =====
-- A server that has no exit left, or no guard.
use minedive.Common.{
  ℕ, ◌≤◌, ◌≡◌, ◌⊎◌, refl, inl, inr, false, [], ◌∷◌, some, arith, Bytes, bytes, ◌is◌, is_refl,
  lookup, Dict, panic,
}
use minedive.Protocol.{Cell}
use minedive.Server.State.{MinediveServer}
use minedive.Server.Registry.Choice.{get_exit_panics, get_guard_panics}
use minedive.Server.Clients.Occurrences.{occurrences}
use minedive.Mined.{Env, request_of, handle, avoided, minedive_dispatch}
use minedive.Mined.Reach.{Orderly}
use minedive.Mined.Reach.Invariant.{Orderly-IsWellFormed}

-- What a request asks for, and no client of the slice is.
abbrev pub Unserved : MinediveServer → Cell → Type 0
Unserved s m =
    ((m.type ≡ bytes "getexit") × ((p : ℕ) → 1 ≤ occurrences p s.clients → (s.heap p).exit ≡ false))
    ⊎ (((m.type ≡ bytes "getguard") ⊎ (m.type ≡ bytes "getbridge"))
        × ((p : ℕ) → 1 ≤ occurrences p s.clients → (s.heap p).guard ≡ false))

no_entries : (d : Dict ℕ) → ((cn : Bytes) (p : ℕ) → ¬ (lookup cn d ≡ some p)) → d ≡ []
unfolding lookup
no_entries [] h = refl
no_entries ((k, p) ∷ d) h = absurd (h k p (rw (is_refl k) refl))

module _ (env : Env) (s : MinediveServer) (cli : ℕ) (m : Cell) where
  getexit-stops : m.type ≡ bytes "getexit" → s.exits ≡ [] → minedive_dispatch env s cli m ≡ panic
  unfolding minedive_dispatch handle request_of ◌is◌ bytes avoided
  getexit-stops t none_left =
      rw (t, (get_exit_panics s (avoided env s cli m) env.draw).1 none_left) refl

  getguard-stops :
      (m.type ≡ bytes "getguard") ⊎ (m.type ≡ bytes "getbridge")
      → s.guards ≡ []
      → minedive_dispatch env s cli m ≡ panic
  unfolding minedive_dispatch handle request_of ◌is◌ bytes avoided
  getguard-stops (inl t) none_left =
      rw (t, (get_guard_panics s (avoided env s cli m) env.draw).1 none_left) refl
  getguard-stops (inr t) none_left =
      rw (t, (get_guard_panics s (avoided env s cli m) env.draw).1 none_left) refl

-- In a run where a client sends "gettid" or "gettssid" only while it is in the slice and no map
-- points to it: while no client of the slice is an exit, "getexit" makes the handler of mined
-- panic, from whatever client and whatever it names to avoid; and while none is a guard, so do
-- "getguard" and "getbridge". That other exits or guards have been there before changes nothing.
pub Unserved-panics :
    (text_of : ℕ → Bytes) (env : Env) (s : MinediveServer) (cli : ℕ) (m : Cell)
    → Orderly text_of s
    → Unserved s m
    → minedive_dispatch env s cli m ≡ panic
Unserved-panics text_of env s cli m run (inl (t, unflagged)) =
    let w = Orderly-IsWellFormed text_of s run in
    getexit-stops env s cli m t (
      no_entries s.exits
        (λ cn p e. ground (arith, w.exits_listed cn p e, w.keyed.exits_named cn p e, unflagged p)))
Unserved-panics text_of env s cli m run (inr (t, unflagged)) =
    let w = Orderly-IsWellFormed text_of s run in
    getguard-stops env s cli m t (
      no_entries s.guards (λ cn p e.
        ground (arith, w.guards_listed cn p e, w.keyed.guards_named cn p e, unflagged p)))
