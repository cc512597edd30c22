-- ===== src/Examples/Reaches.antt =====
-- mined from its start: two clients connect, and the first one registers as an exit and a guard.
use minedive.Common.{
  ℕ, false, inr, ◌≤◌, ◌<◌, ◌≡◌, refl, inl, [], ◌∷◌, ◌++◌, arith, Bytes, bytes, ◌is◌, true, none,
  lookup, insert, split, replicate, has, Outcome, done, panic,
}
use minedive.Protocol.{Cell, zero_cell}
use minedive.Server.State.{MinediveServer, Writes, init_minedive_server, put}
use minedive.Server.Registry.{add_exit, add_guard, get_exit}
use minedive.Server.Clients.{accept}
use minedive.Server.Clients.Occurrences.{occurrences}
use minedive.Mined.{Env, make_avoid_map, request_of, minedive_dispatch}
use minedive.Mined.Registered.{IsUnregistered}
use minedive.Mined.Reach.Stopping.{Unserved-panics}
use minedive.Server.Registry.{del_exit, del_guard}
use minedive.Server.Clients.{disconnect, delete_client_by_name, unregister}
use minedive.Mined.Reach.{
  leave, Step, Reach, connect, request, start, next, Orderly, begin, continue, IsConsistent,
}
use minedive.Mined.Reach.Invariant.{Reach-IsConsistent}
use minedive.Mined.Reach.Delivery.{offer_delivered}
use minedive.Codec.{Codec}
use minedive.Name.{get_random_name}
use minedive.Examples.Packages.{plain_nacl}

abbrev text_of : ℕ → Bytes
text_of n = n ∷ []

abbrev connected : MinediveServer
unfolding accept init_minedive_server put
connected =
    (accept text_of [] (bytes "b:1") [] 8
      (accept text_of [] (bytes "a:1") [] 7 init_minedive_server).0).0

abbrev register_cell : Cell
register_cell = record zero_cell { type = bytes "gettid"; d0 = replicate 32 7; d1 = bytes "e,g" }

-- base64 that leaves the bytes; the server reads no JSON.
abbrev bare_codec : Codec
bare_codec = record {
  encode = λ s. s;
  decode = λ s. record { slice = s; spare = []; good = true };
  print = λ d. [];
  parse = λ s. none;
  valid = λ s. true;
}

abbrev stan : Bytes
stan = 118 ∷ 114 ∷ 102 ∷ 102 ∷ []

abbrev env : Env
env = record {
  codec = bare_codec;
  nacl = plain_nacl;
  token = 5 ∷ 6 ∷ 7 ∷ 8 ∷ [];
  token2 = 5 ∷ 6 ∷ 7 ∷ [];
  draw = record { skip = 0; first = stan ∷ []; second = stan ∷ [] };
  peer = 0;
}

abbrev state_of : Outcome (MinediveServer × Writes) → MinediveServer
state_of (done (s, out)) = s
state_of panic = init_minedive_server

abbrev writes_of : Outcome (MinediveServer × Writes) → Writes
writes_of (done (s, out)) = out
writes_of panic = []

abbrev answered : Outcome (MinediveServer × Writes)
answered = minedive_dispatch env connected 0 register_cell

abbrev registered : MinediveServer
registered = state_of answered

registers : answered ≡ done (registered, writes_of answered)
unfolding minedive_dispatch request_of ◌is◌ bytes connected accept init_minedive_server put split
    get_random_name add_exit add_guard lookup insert
registers = refl

connected_listed : 1 ≤ occurrences 0 connected.clients
unfolding connected accept init_minedive_server put occurrences
connected_listed = omega arith

zero-IsUnregistered : IsUnregistered connected 0
unfolding connected accept init_minedive_server put lookup
zero-IsUnregistered = record { no_exit = λ cn e. cc; no_guard = λ cn e. cc }

zero_connected : 0 < connected.allocated
unfolding connected accept init_minedive_server put
zero_connected = omega arith

abbrev names_zero : Step text_of connected registered
names_zero = request env 0 register_cell zero_connected registers

-- The client sends "gettid" for the second time.
abbrev again : Outcome (MinediveServer × Writes)
again = minedive_dispatch (record env { token = 1 ∷ 2 ∷ 3 ∷ 4 ∷ [] }) registered 0 register_cell

abbrev renamed : MinediveServer
renamed = state_of again

renames : again ≡ done (renamed, writes_of again)
unfolding minedive_dispatch request_of ◌is◌ bytes connected accept init_minedive_server put split
    get_random_name add_exit add_guard lookup insert
renames = refl

zero_registered : 0 < registered.allocated
unfolding minedive_dispatch request_of ◌is◌ bytes connected accept init_minedive_server put split
    get_random_name add_exit add_guard lookup insert
zero_registered = omega arith

reached : Reach text_of renamed
unfolding connected
reached =
    next
      (next (next (next start (connect [] (bytes "a:1") [] 7)) (connect [] (bytes "b:1") [] 8))
        names_zero)
      (request (record env { token = 1 ∷ 2 ∷ 3 ∷ 4 ∷ [] }) 0 register_cell zero_registered renames)

orderly : Orderly text_of registered
unfolding connected
orderly =
    continue
      (continue (continue begin (connect [] (bytes "a:1") [] 7) tt) (connect [] (bytes "b:1") [] 8)
        tt)
      names_zero (inl (connected_listed, zero-IsUnregistered))

Reach-IsConsistent_example : IsConsistent text_of renamed
Reach-IsConsistent_example = Reach-IsConsistent text_of renamed reached

abbrev ask_exit : Cell
ask_exit = record zero_cell { type = bytes "getexit" }

abbrev exit_reply : Cell
exit_reply = record ask_exit { type = bytes "exit"; d0 = stan }

abbrev offer_cell : Cell
offer_cell = record zero_cell { type = bytes "offer"; d1 = stan }

proposes : minedive_dispatch env registered 1 ask_exit ≡ done (registered, (8, exit_reply) ∷ [])
unfolding minedive_dispatch request_of ◌is◌ bytes connected accept init_minedive_server put split
    get_random_name add_exit add_guard lookup insert get_exit make_avoid_map has
proposes = refl

offer_delivered_example :
    (v : ℕ) × ((registered.heap v).name ≡ stan)
    × (before : Writes) × (after : Writes) × (minedive_dispatch env registered 1 offer_cell
        ≡ done (registered, before ++ ((registered.heap v).ws, offer_cell) ∷ after))
offer_delivered_example =
    offer_delivered text_of env registered 1 ask_exit registered 8 exit_reply env 1 offer_cell
      orderly (inl refl) proposes refl refl

-- Client 0, the only exit and the only guard, leaves.
abbrev forsaken : MinediveServer
forsaken = disconnect 0 registered

abbrev ask_guard : Cell
ask_guard = record zero_cell { type = bytes "getguard" }

forsaken_unflagged : (p : ℕ) → 1 ≤ occurrences p forsaken.clients → (forsaken.heap p).guard ≡ false
unfolding minedive_dispatch request_of ◌is◌ bytes connected accept init_minedive_server put split
    get_random_name add_exit add_guard lookup insert disconnect delete_client_by_name unregister
    occurrences del_exit del_guard
forsaken_unflagged p h = ground (arith, h)

Unserved-panics_example : minedive_dispatch env forsaken 1 ask_guard ≡ panic
Unserved-panics_example =
    Unserved-panics text_of env forsaken 1 ask_guard (continue orderly (leave 0) tt)
      (inr (inl refl, forsaken_unflagged))
