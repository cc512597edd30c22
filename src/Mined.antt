-- ===== src/Mined.antt =====
-- cmd/mined/main.go: the server that keeps exits and guards in memory.
pub mod Avoiding
pub mod Frame
pub mod Registered
pub mod Circuits
pub mod Reach
pub mod Signaling
pub mod Registering
use minedive.Common.{
  ℕ, true, ◌&&◌, List, [], ◌∷◌, ◌++◌, Option, none, some, Bytes, bytes, split, ◌is◌, ◌==◌,
  if◌then◌else◌, length, Outcome, done, panic, ◌>>=◌, has,
}
use minedive.Codec.{Codec, Nacl, Decoded, copy}
use minedive.Name.{get_random_name}
use minedive.Protocol.{Cell, zero_cell}
use minedive.Server.State.{MinediveServer, MinediveClient, Writes, write, put}
use minedive.Server.Registry.{Draw, add_exit, add_guard, get_exit, get_guard}
use minedive.Server.Clients.{get_client_by_name, fwd_to_target}
use minedive.Server.Aliases.{send_peer, send_key}

-- `avoid[s] = true`, on the list of the keys.
unfoldable pub avoid_name : List Bytes → Bytes → List Bytes
avoid_name avoid s = if has avoid s then avoid else s ∷ avoid

avoid_all : List Bytes → List Bytes → List Bytes
unfolding avoid_name
avoid_all avoid [] = avoid
avoid_all avoid (s ∷ ss) = avoid_all (avoid_name avoid s) ss

-- The keys of the map that `makeAvoidMap` builds; every value in it is true.
unfoldable pub make_avoid_map : Bytes → Bytes → List Bytes
unfolding avoid_all
make_avoid_map n a = avoid_all (avoid_name [] n) (split b',' a)

-- The cases of the switch on `m.Type`.
pub data Request : Type 0 where
  gettid gettssid gettksid ping publish refuse message pubk getk getkey getalias : Request
  getpeers getexit getguard getbridge offer answer unknown : Request

unfoldable pub request_of : Bytes → Request
request_of t =
    if t is bytes "gettid"
    then gettid
    else if t is bytes "gettssid"
    then gettssid
    else if t is bytes "gettksid"
    then gettksid
    else if t is bytes "ping"
    then ping
    else if t is bytes "pub"
    then publish
    else if t is bytes "refuse"
    then refuse
    else if t is bytes "message"
    then message
    else if t is bytes "pubk"
    then pubk
    else if t is bytes "getk"
    then getk
    else if t is bytes "getkey"
    then getkey
    else if t is bytes "getalias"
    then getalias
    else if t is bytes "getpeers"
    then getpeers
    else if t is bytes "getexit"
    then getexit
    else if t is bytes "getguard"
    then getguard
    else if t is bytes "getbridge"
    then getbridge
    else if t is bytes "offer"
    then offer
    else if t is bytes "answer"
    then answer
    else unknown

-- What the handler is given from outside: the packages, and what chance gives to one call. The
-- second token is for the second name that "gettid" makes; `peer` is the draw of `GetOtherPeer`.
pub record Env : Type 0 where
  pub codec : Codec
  pub nacl : Nacl
  pub token : Bytes
  pub token2 : Bytes
  pub draw : Draw
  pub peer : ℕ

abbrev pub Handled : Type 0
Handled = Outcome (MinediveServer × Writes)

-- The loop over the attributes of "gettid".
set_attrs : ℕ → List Bytes → MinediveServer → MinediveServer
set_attrs cli [] s = s
set_attrs cli (attr ∷ attrs) s = set_attrs cli attrs (
    if attr is bytes "e"
    then add_exit cli (put cli (record (s.heap cli) { exit = true }) s)
    else if attr is bytes "g"
    then add_guard cli (put cli (record (s.heap cli) { guard = true }) s)
    else s)

module _ (env : Env) (s : MinediveServer) (cli : ℕ) (m : Cell) where
  random_name : Bytes → Bytes → Outcome Bytes
  random_name token sseed = get_random_name env.codec.encode token sseed

  -- "gettid" with a key of the right length.
  register : Bytes → Handled
  unfolding set_attrs random_name
  register pk = do
    name ← random_name env.token (bytes "stan")
    tkid ← random_name env.token2 (bytes "ken")
    let keyed = record (s.heap cli) { public_key = copy (s.heap cli).public_key pk; name = name }
    let s1 = set_attrs cli (split b',' m.d1) (put cli keyed s)
    let s2 = put cli (record (s1.heap cli) { tkid = tkid }) s1
    done (s2, write s2 cli (record m { type = bytes "tid"; d0 = name; d1 = tkid }))

  handle_gettid : Handled
  unfolding register
  handle_gettid =
      let pk = env.codec.decode m.d0 in
      if pk.good && length pk.slice == 32 then register pk.slice else done (s, [])

  handle_gettssid : Handled
  unfolding random_name
  handle_gettssid = do
    name ← random_name env.token (bytes "stan")
    let s' = put cli (record (s.heap cli) { name = name }) s
    done (s', write s' cli (record m { type = bytes "tssid"; d0 = name }))

  handle_gettksid : Handled
  unfolding random_name
  handle_gettksid = do
    tkid ← random_name env.token (bytes "ken")
    let s' = put cli (record (s.heap cli) { tkid = tkid }) s
    done (s', write s' cli (record m { type = bytes "tksid"; d0 = tkid }))

  handle_pubk : Handled
  handle_pubk =
      let k = env.codec.decode m.d0 in
      let c = record (s.heap cli) { pub_k = copy (s.heap cli).pub_k k.slice } in
      if k.good then done (put cli c s, []) else done (s, [])

  handle_getk : Handled
  handle_getk = done (
    s,
    elim (get_client_by_name s m.d0) [
      | none ↦ []
      | some oc ↦ write s cli (record zero_cell {
        type = bytes "k";
        d0 = (s.heap oc).name;
        d1 = env.codec.encode (s.heap oc).pub_k;
      })
    ],
  )

  -- The reply of "getexit", "getguard" and "getbridge".
  reply_node : Bytes → Option ℕ → Handled
  reply_node type none = done (s, [])
  reply_node type (some nc) =
      done (s, write s cli (record m { type = type; d0 = (s.heap nc).name }))

  avoided : List Bytes
  unfolding make_avoid_map
  avoided = make_avoid_map (s.heap cli).name m.d0

  handle : Request → Handled
  unfolding handle_gettid handle_gettssid handle_gettksid handle_pubk handle_getk reply_node avoided
  handle gettid = handle_gettid
  handle gettssid = handle_gettssid
  handle gettksid = handle_gettksid
  handle ping = done (s, write s cli (record m { type = bytes "pong" }))
  handle publish = done (s, [])
  handle refuse = done (s, write s cli m)
  handle message = done (s, [])
  handle pubk = handle_pubk
  handle getk = handle_getk
  handle getkey = do out ← send_key env.codec env.nacl s cli m; done (s, out)
  handle getalias = done (s, [])
  handle getpeers = done (s, send_peer env.codec env.nacl s cli env.peer)
  handle getexit = do nc ← get_exit s avoided env.draw; reply_node (bytes "exit") nc
  handle getguard = do nc ← get_guard s avoided env.draw; reply_node (bytes "guard") nc
  handle getbridge = do nc ← get_guard s avoided env.draw; reply_node (bytes "bridge") nc
  handle offer = done (s, fwd_to_target s m)
  handle answer = done (s, fwd_to_target s m)
  handle unknown = done (s, [])

  unfoldable pub minedive_dispatch : Handled
  unfolding handle request_of
  minedive_dispatch = handle (request_of m.type)
