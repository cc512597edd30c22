-- ===== src/Mined/Circuits/Choosing.antt =====
-- The three nodes that a new circuit gets from mined.
use minedive.Common.{
  ℕ, ◌≡◌, ◌≢◌, refl, inl, inr, [], ◌∷◌, ◌++◌, none, some, arith, Bytes, bytes, ◌is◌, is_iff, true,
  false, Lacks, lookup, has, done, Outcome-cases, split_of_Lacks,
}
use minedive.Protocol.{Cell, zero_cell}
use minedive.Codec.{Codec}
use minedive.Server.State.{MinediveServer}
use minedive.Server.Registry.{get_guard, get_exit}
use minedive.Server.Registry.Choice.{get_guard_sound, get_exit_sound}
use minedive.Client.State.{Client, Circuit, send_cell, dial_peer}
use minedive.Client.Circuits.Building.{
  start_circuit, start_circuit-first, request_guard, request_bridge,
}
use minedive.Client.Rendezvous
use minedive.Client.Rendezvous.Proposals.{ws_step_three}
use minedive.Mined.{
  Env, getexit, getguard, request_of, handle, reply_node, avoided, make_avoid_map,
  minedive_dispatch,
}
use minedive.Mined.Avoiding.{has-make_avoid_map}
use minedive.Mined.Registered.{IsKeyed}
use minedive.Mined.Circuits.{getbridge_distinct}

request_of_getexit : request_of (bytes "getexit") ≡ getexit
unfolding request_of ◌is◌ bytes
request_of_getexit = refl

request_of_getguard : request_of (bytes "getguard") ≡ getguard
unfolding request_of ◌is◌ bytes
request_of_getguard = refl

make_avoid_map_one :
    (n a x : Bytes) → Lacks b',' a → has (make_avoid_map n a) x ≡ false → (x ≢ n) × (x ≢ a)
unfolding has
make_avoid_map_one n a x ha h =
    let part = split_of_Lacks b',' a ha in
    let all = has-make_avoid_map n a x in ground (arith, part, all, is_iff a x)

module _ (env : Env) (s : MinediveServer) (cli : ℕ) (m : Cell) (s' : MinediveServer) (w : ℕ)
    (r : Cell) (k : IsKeyed s) (alone : Lacks b',' m.d0) where
  -- An exit in the reply is neither the client nor the name in the request, and is registered.
  getexit_reply :
      m.type ≡ bytes "getexit"
      → minedive_dispatch env s cli m ≡ done (s', (w, r) ∷ [])
      → (r.type ≡ bytes "exit")
        × (r.d0 ≢ (s.heap cli).name)
        × (r.d0 ≢ m.d0)
        × ((p : ℕ) × (lookup r.d0 s.exits ≡ some p))
  unfolding minedive_dispatch handle reply_node avoided
  getexit_reply type e =
      let e' = rw (type, request_of_getexit) at e in
      elim (Outcome-cases (get_exit s (make_avoid_map (s.heap cli).name m.d0) env.draw)) [
        | inl f ↦ absurd (ground arith)
        | inr (none, f) ↦ absurd (ground arith)
        | inr (some p, f) ↦
            let (cn, found, free) = get_exit_sound s _ env.draw p f in
            let named = (k.exits_named cn p found).0 in
            let at : r.d0 ≡ cn = ground arith in
            let (a, b) = make_avoid_map_one (s.heap cli).name m.d0 cn alone free in
            (ground arith, rw at a, rw at b, (p, rw at found))
      ]

  -- The same of a guard.
  getguard_reply :
      m.type ≡ bytes "getguard"
      → minedive_dispatch env s cli m ≡ done (s', (w, r) ∷ [])
      → (r.type ≡ bytes "guard")
        × (r.d0 ≢ (s.heap cli).name)
        × (r.d0 ≢ m.d0)
        × ((p : ℕ) × (lookup r.d0 s.guards ≡ some p))
  unfolding minedive_dispatch handle reply_node avoided
  getguard_reply type e =
      let e' = rw (type, request_of_getguard) at e in
      elim (Outcome-cases (get_guard s (make_avoid_map (s.heap cli).name m.d0) env.draw)) [
        | inl f ↦ absurd (ground arith)
        | inr (none, f) ↦ absurd (ground arith)
        | inr (some p, f) ↦
            let (cn, found, free) = get_guard_sound s _ env.draw p f in
            let named = (k.guards_named cn p found).0 in
            let at : r.d0 ≡ cn = ground arith in
            let (a, b) = make_avoid_map_one (s.heap cli).name m.d0 cn alone free in
            (ground arith, rw at a, rw at b, (p, rw at found))
      ]

-- The names of the nodes that the server has have no comma.
pub record HasNames (s : MinediveServer) : Type 0 where
  pub exits : (cn : Bytes) (p : ℕ) → lookup cn s.exits ≡ some p → Lacks b',' cn
  pub guards : (cn : Bytes) (p : ℕ) → lookup cn s.guards ≡ some p → Lacks b',' cn

-- The requests of `NewCircuit`, of which the second and the third name the nodes that it has.
abbrev pub ask_exit : Cell
ask_exit = record zero_cell { type = bytes "getexit" }

abbrev pub ask_guard : Bytes → Cell
ask_guard exit = record zero_cell { type = bytes "getguard"; d0 = exit }

abbrev pub ask_bridge : Bytes → Bytes → Cell
ask_bridge exit guard = record zero_cell { type = bytes "getbridge"; d0 = guard ++ b',' ∷ exit }

-- A circuit has three nodes that are not the node itself, and are not one another.
pub record IsChosen (own : Bytes) (z : Circuit) : Type 0 where
  pub exit_own : z.exit.id ≢ own
  pub guard_own : z.guard.id ≢ own
  pub bridge_own : z.bridge.id ≢ own
  pub guard_exit : z.guard.id ≢ z.exit.id
  pub bridge_guard : z.bridge.id ≢ z.guard.id
  pub bridge_exit : z.bridge.id ≢ z.exit.id

-- `NewCircuit` over mined gets three different nodes. A node starts a circuit, and mined answers
-- its three requests, each by one cell, on any states that it has by then, with its maps in step
-- with its clients and with names that have no comma, where the client has the name of the node.
-- Then the node takes each answer into its first circuit, and sends the next request with the names
-- that it has; and at the end that circuit has as its exit a registered exit, as its guard and its
-- bridge registered guards, and the three are not the node itself and not one another.
pub start_circuit-IsChosen :
    (codec : Codec) (public secret : Bytes) (c : Client) (renv : Rendezvous.Env)
    (env1 env2 env3 : Env) (s1 s2 s3 s1' s2' s3' : MinediveServer) (cli w1 w2 w3 : ℕ)
    (r1 r2 r3 : Cell)
    → IsKeyed s1
    → IsKeyed s2
    → IsKeyed s3
    → HasNames s1
    → HasNames s2
    → (s1.heap cli).name ≡ c.tid
    → (s2.heap cli).name ≡ c.tid
    → (s3.heap cli).name ≡ c.tid
    → minedive_dispatch env1 s1 cli ask_exit ≡ done (s1', (w1, r1) ∷ [])
    → minedive_dispatch env2 s2 cli (ask_guard r1.d0) ≡ done (s2', (w2, r2) ∷ [])
    → minedive_dispatch env3 s3 cli (ask_bridge r1.d0 r2.d0) ≡ done (s3', (w3, r3) ∷ [])
    → let (c1, z, out) = start_circuit codec public secret c in
      (c2 c3 c4 : Client) × (out ≡ send_cell ask_exit ∷ [])
      × (Rendezvous.ws_step renv c1 r1 ≡ done (c2, []))
      × (request_guard (c2.circuit z) ≡ send_cell (ask_guard r1.d0))
      × (Rendezvous.ws_step renv c2 r2 ≡ done (c3, dial_peer r2.d0 [] true false ∷ []))
      × (request_bridge (c3.circuit z) ≡ send_cell (ask_bridge r1.d0 r2.d0))
      × (Rendezvous.ws_step renv c3 r3 ≡ done (c4, []))
      × IsChosen c.tid (c4.circuit z)
      × ((p : ℕ) × (lookup (c4.circuit z).exit.id s1.exits ≡ some p))
      × ((p : ℕ) × (lookup (c4.circuit z).guard.id s2.guards ≡ some p))
      × ((p : ℕ) × (lookup (c4.circuit z).bridge.id s3.guards ≡ some p))
unfolding start_circuit request_guard request_bridge
start_circuit-IsChosen codec public secret c renv env1 env2 env3 s1 s2 s3 s1' s2' s3' cli w1 w2 w3
      r1 r2 r3 k1 k2 k3 names1 names2 own1 own2 own3 e1 e2 e3 =
    let (c1, z, out) = start_circuit codec public secret c in
    let (zs, first) = start_circuit-first codec public secret c in
    let (type1, exit_own, exit_named, (p1, found1)) =
      getexit_reply env1 s1 cli ask_exit s1' w1 r1 k1 tt refl e1 in
    let lacks1 = names1.exits r1.d0 p1 found1 in
    let (type2, guard_own, guard_exit, (p2, found2)) =
      getguard_reply env2 s2 cli (ask_guard r1.d0) s2' w2 r2 k2 lacks1 refl e2 in
    let lacks2 = names2.guards r2.d0 p2 found2 in
    let (to, type3, bridge_own, bridge_guard, bridge_exit, found3) =
      getbridge_distinct env3 s3 cli (ask_bridge r1.d0 r2.d0) r2.d0 r1.d0 s3' w3 r3 k3 refl refl
        lacks2 lacks1 e3 in
    let (c2, c3, c4, step1, step2, step3, at2, at3, at4) =
      ws_step_three renv c1 z zs r1 r2 r3 first type1 type2 type3 in
    (
      c2,
      c3,
      c4,
      refl,
      step1,
      rw at2 refl,
      step2,
      rw at3 refl,
      step3,
      rw at4 (record {
        exit_own = rw own1 at exit_own;
        guard_own = rw own2 at guard_own;
        bridge_own = rw own3 at bridge_own;
        guard_exit = guard_exit;
        bridge_guard = bridge_guard;
        bridge_exit = bridge_exit;
      }),
      rw at4 (p1, found1),
      rw at4 (p2, found2),
      rw at4 found3,
    )
