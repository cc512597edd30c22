-- ===== src/Mined/Circuits.antt =====
-- The nodes that the server proposes for a circuit.
pub mod Choosing
use minedive.Common.{
  ℕ, ◌≡◌, refl, ◌≢◌, inl, inr, [], ◌∷◌, ◌++◌, none, some, arith, Bytes, bytes, ◌is◌, false, Lacks,
  lookup, has, done, Outcome-cases,
}
use minedive.Protocol.{Cell}
use minedive.Server.State.{MinediveServer}
use minedive.Server.Registry.{get_guard}
use minedive.Server.Registry.Choice.{get_guard_sound}
use minedive.Mined.{
  Env, getbridge, request_of, handle, reply_node, avoided, make_avoid_map, minedive_dispatch,
}
use minedive.Mined.Avoiding.{make_avoid_map_two}
use minedive.Mined.Registered.{IsKeyed}

request_of_getbridge : request_of (bytes "getbridge") ≡ getbridge
unfolding request_of ◌is◌ bytes
request_of_getbridge = refl

module _ (env : Env) (s : MinediveServer) (cli : ℕ) (m : Cell) where
  -- The reply to "getbridge", if there is one, is a cell to the client, and names a node that the
  -- server has as a guard and that the avoided names lack.
  handle_getbridge_reply :
      (s' : MinediveServer) (w : ℕ) (r : Cell)
      → IsKeyed s
      → handle env s cli m getbridge ≡ done (s', (w, r) ∷ [])
      → (w ≡ (s.heap cli).ws)
        × (r.type ≡ bytes "bridge")
        × (has (make_avoid_map (s.heap cli).name m.d0) r.d0 ≡ false)
        × ((p : ℕ) × (lookup r.d0 s.guards ≡ some p))
  unfolding handle reply_node avoided
  handle_getbridge_reply s' w r k e =
      elim (Outcome-cases (get_guard s (make_avoid_map (s.heap cli).name m.d0) env.draw)) [
        | inl f ↦ absurd (ground arith)
        | inr (none, f) ↦ absurd (ground arith)
        | inr (some p, f) ↦
            let (cn, found, free) = get_guard_sound s _ env.draw p f in
            let named = (k.guards_named cn p found).0 in
            (ground arith, ground arith, ground arith, (p, ground arith))
      ]

  -- A bridge in the reply, if there is one, is neither the client that asks, nor the guard, nor the
  -- exit that it names in its request, and it is a registered guard; for names with no comma, on a
  -- server whose maps are in step with its clients.
  pub getbridge_distinct :
      (g e : Bytes) (s' : MinediveServer) (w : ℕ) (r : Cell)
      → IsKeyed s
      → m.type ≡ bytes "getbridge"
      → m.d0 ≡ g ++ b',' ∷ e
      → Lacks b',' g
      → Lacks b',' e
      → minedive_dispatch env s cli m ≡ done (s', (w, r) ∷ [])
      → (w ≡ (s.heap cli).ws)
        × (r.type ≡ bytes "bridge")
        × (r.d0 ≢ (s.heap cli).name)
        × (r.d0 ≢ g)
        × (r.d0 ≢ e)
        × ((p : ℕ) × (lookup r.d0 s.guards ≡ some p))
  unfolding minedive_dispatch
  getbridge_distinct g e s' w r k ht hd hg he h =
      let (to, type, free, known) =
        handle_getbridge_reply s' w r k (rw (ht, request_of_getbridge) at h) in
      let (a, b, c) = make_avoid_map_two (s.heap cli).name g e r.d0 hg he (rw hd at free) in
      (to, type, a, b, c, known)
