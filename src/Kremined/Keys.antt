-- ===== src/Kremined/Keys.antt =====
-- Under which name kremined keeps the keys of its clients.
use minedive.Common.{
  ℕ, ◌≡◌, ◌≢◌, refl, sym, ap, ◌∙◌, arith, false, [], Bytes, bytes, ◌is◌, insert, length, done,
}
use minedive.Codec.{Codec, IsCodec}
use minedive.Protocol.{Cell, zero_cell}
use minedive.Server.State.{MinediveServer, write}
use minedive.Redis.{Redis, key_name}
use minedive.Client.State.{Client}
use minedive.Client.Rendezvous.{Env, ws_step}
use minedive.Client.Rendezvous.Keys.{ws_step-key}
use minedive.Kremined.{store_key, send_stored_key, minedive_dispatch}
use minedive.Server.State.{put, init_minedive_server, MinediveClient}
use minedive.Server.Clients.{accept, disconnect, delete_client_by_name, unregister}
use minedive.Server.Registry.{del_exit, del_guard}

-- The documented behaviour of GET after SET, before the key expires: the key has the value, and no
-- other key changes.
pub record IsStore {R : Type 0} (r : Redis R) : Type 0 where
  pub get-set_for : (key v : Bytes) (hours : ℕ) (db : R) → r.get key (r.set_for key v hours db) ≡ v
  pub get_other :
      (key other v : Bytes) (hours : ℕ) (db : R)
      → other ≢ key
      → r.get key (r.set_for other v hours db) ≡ r.get key db

abbrev pub pubk_cell : Bytes → Cell
pubk_cell d0 = record zero_cell { type = bytes "pubk"; d0 = d0 }

abbrev pub getk_cell : Bytes → Cell
getk_cell name = record zero_cell { type = bytes "getk"; d0 = name }

-- No client has a name.
abbrev AllUnnamed : MinediveServer → Type 0
AllUnnamed s = (p : ℕ) → (s.heap p).name ≡ []

key_name_distinct : (name : Bytes) → name ≢ [] → key_name [] ≢ key_name name
key_name_distinct name other e = other (sym cc)

disconnect_heap : (p : ℕ) (s : MinediveServer) → (disconnect p s).heap ≡ s.heap
unfolding disconnect delete_client_by_name unregister del_exit del_guard
disconnect_heap p s = ground arith

disconnect-AllUnnamed : (s : MinediveServer) (p : ℕ) → AllUnnamed s → AllUnnamed (disconnect p s)
disconnect-AllUnnamed s p unnamed =
    λ q. ap (λ (c : MinediveClient). c.name) (ap (λ h. h q) (disconnect_heap p s)) ∙ unnamed q

module _ {R : Type 0} (codec : Codec) (redis : Redis R) (text_of : ℕ → Bytes) (db0 : R) where
  -- What kremined comes to over connections, requests and ends of connections, on a database that
  -- is `db0` at the start and that nothing else writes.
  pub data Reach : MinediveServer → R → Type 0 where
    start : Reach init_minedive_server db0
    connect :
        {s : MinediveServer} {db : R} (host remote_addr secret : Bytes) (ws : ℕ)
        → Reach s db
        → Reach (accept text_of host remote_addr secret ws s).0 db
    request :
        {s : MinediveServer} {db : R} (cli : ℕ) (m : Cell)
        → Reach s db
        → Reach
            (minedive_dispatch codec redis s db cli m).0
            (minedive_dispatch codec redis s db cli m).1
    leave : {s : MinediveServer} {db : R} (p : ℕ) → Reach s db → Reach (disconnect p s) db

  store_key-AllUnnamed :
      (s : MinediveServer) (db : R) (cli : ℕ) (m : Cell)
      → AllUnnamed s
      → AllUnnamed (minedive_dispatch codec redis s db cli m).0
  unfolding minedive_dispatch store_key put
  store_key-AllUnnamed s db cli m unnamed = λ q. ground (arith, unnamed q, unnamed cli)

  Reach-AllUnnamed : {s : MinediveServer} {db : R} → Reach s db → AllUnnamed s
  unfolding init_minedive_server accept put
  Reach-AllUnnamed start = λ p. refl
  Reach-AllUnnamed (connect host remote_addr secret ws r) =
      let unnamed = Reach-AllUnnamed r in λ q. ground (arith, unnamed q)
  Reach-AllUnnamed (request {s} {db} cli m r) = store_key-AllUnnamed s db cli m (Reach-AllUnnamed r)
  Reach-AllUnnamed (leave {s} p r) = disconnect-AllUnnamed s p (Reach-AllUnnamed r)

  module _ (store : IsStore redis) (name : Bytes) (other : name ≢ []) where
    store_key-keeps :
        (s : MinediveServer) (db : R) (cli : ℕ) (m : Cell)
        → AllUnnamed s
        → redis.get (key_name name) (minedive_dispatch codec redis s db cli m).1
          ≡ redis.get (key_name name) db
    unfolding minedive_dispatch store_key
    store_key-keeps s db cli m unnamed =
        let kept =
          store.get_other (key_name name) (key_name []) m.d0 1 db (key_name_distinct name other) in
        ground (arith, unnamed cli, kept)

    Reach-keeps :
        {s : MinediveServer} {db : R}
        → Reach s db
        → redis.get (key_name name) db ≡ redis.get (key_name name) db0
    Reach-keeps start = refl
    Reach-keeps (connect host remote_addr secret ws r) = Reach-keeps r
    Reach-keeps (request {s} {db} cli m r) =
        store_key-keeps s db cli m (Reach-AllUnnamed r) ∙ Reach-keeps r
    Reach-keeps (leave p r) = Reach-keeps r

-- kremined gives no client a name, so the keys of all clients share one place. In every state that
-- it comes to from a database without a key for the names that are not empty: once a client has
-- sent "pubk" with a key of 32 bytes in base64, which is not empty, "getk" with the empty name is
-- answered with that key, whichever client sent it and whatever was stored before, and the node
-- that gets the answer notes the key under the empty name; and "getk" with any other name gets no
-- answer. For a redis that nothing else writes and whose keys have not expired.
pub getk_unnamed :
    {R : Type 0} (codec : Codec) (redis : Redis R) (text_of : ℕ → Bytes) (db0 : R)
    (s : MinediveServer) (db : R) (v cli : ℕ) (key : Bytes) (env : Env) (node : Client)
    → IsCodec codec
    → IsStore redis
    → env.codec ≡ codec
    → length key ≡ 32
    → ((name : Bytes) → name ≢ [] → redis.get (key_name name) db0 ≡ [])
    → Reach codec redis text_of db0 s db
    → (codec.encode key is []) ≡ false
    → let after = minedive_dispatch codec redis s db v (pubk_cell (codec.encode key)) in
      let answer = record zero_cell { type = bytes "k"; d0 = []; d1 = codec.encode key } in
      (minedive_dispatch codec redis after.0 after.1 cli (getk_cell [])
        ≡ (after.0, after.1, write after.0 cli answer))
      × (ws_step env node answer ≡ done (record node { keys = insert [] key node.keys }, []))
      × ((name : Bytes)
          → name ≢ []
          → minedive_dispatch codec redis after.0 after.1 cli (getk_cell name)
            ≡ (after.0, after.1, []))
unfolding minedive_dispatch store_key send_stored_key ◌is◌ bytes
getk_unnamed codec redis text_of db0 s db v cli key env node laws store same size empty reached
      full =
    let unnamed = Reach-AllUnnamed codec redis text_of db0 reached v in
    let d = codec.decode (codec.encode key) in
    let (slice, good) = laws.decode-encode key in
    (
      rw
          (
            good,
            store_key,
            unnamed,
            send_stored_key,
            store.get-set_for (key_name []) (codec.encode key) 1 db,
            full,
          )
          refl,
      ws_step-key env node [] (codec.encode key) key (rw same slice) (rw same good) size,
      λ name other.
          let kept =
            Reach-keeps codec redis text_of db0 store name other
              (request v (pubk_cell (codec.encode key)) reached) in
          rw (kept, empty name other) refl,
    )
