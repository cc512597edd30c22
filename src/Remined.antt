-- ===== src/Remined.antt =====
-- cmd/remined/main.go: the server that keeps exits, guards and keys in redis.
pub mod Avoiding
pub mod Departed
mod Pages
use minedive.Common.{
  ℕ, ◌+◌, ◌&&◌, not, Bool, true, false, List, [], ◌∷◌, Option, none, some, Bytes, bytes, split,
  ◌is◌, ltb, leb, if◌then◌else◌, length, Outcome, done, panic, ◌>>=◌, has,
}
use minedive.Codec.{Codec, Decoded, slice_to, copy}
use minedive.Name.{get_random_name}
use minedive.Protocol.{Cell, zero_cell}
use minedive.Server.State.{MinediveServer, MinediveClient, Writes, write, put}
use minedive.Server.Registry.{add_exit, add_guard}
use minedive.Server.Clients.{fwd_to_target}
use minedive.Server.Aliases.{or_panic}
use minedive.Redis.{Redis, key_name}

-- `avoid[s] = true`, on the list of the keys.
unfoldable pub avoid_name : List Bytes → Bytes → List Bytes
avoid_name avoid s = if has avoid s then avoid else s ∷ avoid

-- The loop passes over empty names.
avoid_all : List Bytes → List Bytes → List Bytes
unfolding avoid_name
avoid_all avoid [] = avoid
avoid_all avoid (s ∷ ss) = avoid_all (if s is [] then avoid else avoid_name avoid s) ss

-- The keys of the map that `makeAvoidMap` builds; every value in it is true.
unfoldable pub make_avoid_map : Bytes → Bytes → List Bytes
unfolding avoid_all
make_avoid_map n a = avoid_all (avoid_name [] n) (split b',' a)

-- The loop `for i = range nc` and `nc[i]` after it: the first name that is not avoided, or the last
-- of all. With no name at all `nc[0]` panics.
unfoldable pub pick : List Bytes → List Bytes → Outcome Bytes
pick avoid [] = panic
pick avoid (x ∷ []) = done x
pick avoid (x ∷ y ∷ nc) = if has avoid x then pick avoid (y ∷ nc) else done x

-- The cases of the switch on `m.Type`.
pub data Request : Type 0 where
  gettid ping pubk getk getexit getguard getbridge offer answer unknown : Request

unfoldable pub request_of : Bytes → Request
request_of t =
    if t is bytes "gettid"
    then gettid
    else if t is bytes "ping"
    then ping
    else if t is bytes "pubk"
    then pubk
    else if t is bytes "getk"
    then getk
    else if t is bytes "getexit"
    then getexit
    else if t is bytes "getguard"
    then getguard
    else if t is bytes "getbridge"
    then getbridge
    else if t is bytes "offer"
    then offer
    else if t is bytes "answer"
    then answer
    else unknown

-- What the handler is given from outside: base64, redis, the tokens of the two random names, and
-- the chance that `SRandMemberN` has.
pub record Env (R : Type 0) : Type 0 where
  pub codec : Codec
  pub redis : Redis R
  pub token : Bytes
  pub token2 : Bytes
  pub chance : ℕ

module _ {R : Type 0} (env : Env R) where
  -- The loop over the attributes of "gettid".
  set_attrs : ℕ → List Bytes → MinediveServer → R → MinediveServer × R
  set_attrs cli [] s db = (s, db)
  set_attrs cli (attr ∷ attrs) s db =
      if attr is bytes "e"
      then set_attrs cli attrs (add_exit cli (put cli (record (s.heap cli) { exit = true }) s))
          (env.redis.s_add (bytes "EXITS") (s.heap cli).name db)
      else if attr is bytes "g"
      then set_attrs cli attrs (add_guard cli (put cli (record (s.heap cli) { guard = true }) s))
          (env.redis.s_add (bytes "GUARDS") (s.heap cli).name db)
      else set_attrs cli attrs s db

module _ {R : Type 0} (env : Env R) (s : MinediveServer) (db : R) (cli : ℕ) (m : Cell) where
  -- "gettid" with a key that could be decoded. A key whose slice has no room for 32 bytes panics.
  -- The key goes into the set of the name that the client had before.
  register : Decoded → Outcome ((MinediveServer × R) × Writes)
  unfolding set_attrs
  register pk = do
    pk32 ← or_panic (slice_to 32 pk)
    let db1 = env.redis.s_add (key_name (s.heap cli).name) m.d0 db
    name ← get_random_name env.codec.encode env.token (bytes "stan")
    let keyed = record (s.heap cli) { public_key = copy (s.heap cli).public_key pk32; name = name }
    let attrs = set_attrs env cli (split b',' m.d1) (put cli keyed s) db1
    tkid ← get_random_name env.codec.encode env.token2 (bytes "ken")
    let s2 = put cli (record (attrs.0.heap cli) { tkid = tkid }) attrs.0
    done ((s2, attrs.1), write s2 cli (record m { type = bytes "tid"; d0 = name; d1 = tkid }))

  handle_gettid : Outcome ((MinediveServer × R) × Writes)
  unfolding register
  handle_gettid =
      let pk = env.codec.decode m.d0 in if pk.good then register pk else done ((s, db), [])

  handle_pubk : Outcome ((MinediveServer × R) × Writes)
  handle_pubk =
      let k = env.codec.decode m.d0 in
      let c = record (s.heap cli) { pub_k = copy (s.heap cli).pub_k k.slice } in
      if k.good
      then done ((put cli c s, env.redis.set_for (key_name (s.heap cli).name) m.d0 1 db), [])
      else done ((s, db), [])

  handle_getk : Outcome ((MinediveServer × R) × Writes)
  handle_getk =
      let k = env.redis.get (key_name m.d0) db in
      let out = write s cli (record zero_cell { type = bytes "k"; d0 = m.d0; d1 = k }) in
      done ((s, db), if k is [] then [] else out)

  avoided : List Bytes
  unfolding make_avoid_map
  avoided = make_avoid_map (s.heap cli).name m.d0

  -- What redis gives for a request: one name more than there are to avoid, if it has as many.
  drawn : Bytes → List Bytes
  unfolding avoided
  drawn key = env.redis.s_rand_member_n env.chance key (length avoided + 1) db

  -- The reply with the picked name.
  reply_name : Bytes → List Bytes → Outcome ((MinediveServer × R) × Writes)
  unfolding avoided
  reply_name type nc = do
    name ← pick avoided nc
    done ((s, db), write s cli (record m { type = type; d0 = name }))

  handle_getexit : Outcome ((MinediveServer × R) × Writes)
  unfolding drawn reply_name avoided
  handle_getexit =
      let nc = drawn (bytes "EXITS") in
      if ltb (length nc) (length avoided) then done ((s, db), []) else reply_name (bytes "exit") nc

  -- "getguard" and "getbridge", which differ in the type of the reply.
  handle_getguard : Bytes → Outcome ((MinediveServer × R) × Writes)
  unfolding drawn reply_name avoided
  handle_getguard type =
      let nc = drawn (bytes "GUARDS") in
      if leb (length nc) (length avoided) then done ((s, db), []) else reply_name type nc

  handle : Request → Outcome ((MinediveServer × R) × Writes)
  unfolding handle_gettid handle_pubk handle_getk handle_getexit handle_getguard
  handle gettid = handle_gettid
  handle ping = done ((s, db), write s cli (record m { type = bytes "pong" }))
  handle pubk = handle_pubk
  handle getk = handle_getk
  handle getexit = handle_getexit
  handle getguard = handle_getguard (bytes "guard")
  handle getbridge = handle_getguard (bytes "bridge")
  handle offer = done ((s, db), fwd_to_target s m)
  handle answer = done ((s, db), fwd_to_target s m)
  handle unknown = done ((s, db), [])

  unfoldable pub minedive_dispatch : Outcome ((MinediveServer × R) × Writes)
  unfolding handle request_of
  minedive_dispatch = handle (request_of m.type)
