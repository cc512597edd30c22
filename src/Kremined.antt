-- ===== src/Kremined.antt =====
-- cmd/kremined/main.go: the server that keeps the keys of nodes in redis.
pub mod Keys
use minedive.Common.{ℕ, [], bytes, ◌is◌, if◌then◌else◌}
use minedive.Codec.{Codec, copy}
use minedive.Protocol.{Cell, zero_cell}
use minedive.Server.State.{MinediveServer, Writes, write, put}
use minedive.Redis.{Redis, key_name}

module _ {R : Type 0} (codec : Codec) (redis : Redis R) where
  store_key : MinediveServer → R → ℕ → Cell → MinediveServer × R × Writes
  store_key s db cli m =
      let k = codec.decode m.d0 in
      let c = record (s.heap cli) { pub_k = copy (s.heap cli).pub_k k.slice } in
      if k.good
      then (put cli c s, redis.set_for (key_name (s.heap cli).name) m.d0 1 db, [])
      else (s, db, [])

  send_stored_key : MinediveServer → R → ℕ → Cell → Writes
  send_stored_key s db cli m =
      let k = redis.get (key_name m.d0) db in
      let out = record zero_cell { type = bytes "k"; d0 = m.d0; d1 = k } in
      if k is [] then [] else write s cli out

  unfoldable pub minedive_dispatch : MinediveServer → R → ℕ → Cell → MinediveServer × R × Writes
  unfolding store_key send_stored_key
  minedive_dispatch s db cli m =
      if m.type is bytes "pubk"
      then store_key s db cli m
      else if m.type is bytes "getk"
      then (s, db, send_stored_key s db cli m)
      else (s, db, [])
