-- ===== src/Examples/Stores.antt =====
-- remined and kremined on a redis that keeps its sets in memory.
use minedive.Common.{
  ◌≢◌, lookup-insert, ℕ, zero, suc, inl, ◌≤◌, ◌<◌, ◌≡◌, refl, ◌⊎◌, true, false, List, [], ◌∷◌,
  Option, none, some, ap, arith, Bytes, bytes, ◌is◌, is_iff, if◌then◌else◌, has, Dict, lookup,
  insert, length, take, replicate, lookup-insert_self, split, done,
}
use minedive.Protocol.{Cell, zero_cell}
use minedive.Server.State.{write}
use minedive.Redis.{Redis, IsRedis, Distinct}
use minedive.Remined.{Env, make_avoid_map, request_of, minedive_dispatch}
use minedive.Remined.Departed.{answer_of, departed_proposed}
use minedive.Server.Clients.{disconnect}
use minedive.Remined.Avoiding.{AllIn, asked, getguard_avoids, getexit_cases, getexit_avoided}
use minedive.Kremined
use minedive.Kremined.Keys.{IsStore, pubk_cell, getk_cell, start, connect, getk_unnamed}
use minedive.Server.State.{MinediveServer, init_minedive_server}
use minedive.Server.Clients.{accept}
use minedive.Client.Rendezvous.{ws_step}
use minedive.Examples.Introductions.{env as node_env}
use minedive.Examples.Nodes.{node_of}
use minedive.Examples.Packages.{plain_codec, plain_codec-IsCodec, plain_codec_encode}
use minedive.Examples.Servers.{name_of, server}

fresh : List Bytes → List Bytes
fresh [] = []
fresh (x ∷ xs) = let rest = fresh xs in if has rest x then rest else x ∷ rest

fresh-Distinct : (xs : List Bytes) → Distinct (fresh xs)
unfolding fresh
fresh-Distinct [] = tt
fresh-Distinct (x ∷ xs) = ground (arith, fresh-Distinct xs)

has-take : (n : ℕ) (xs : List Bytes) (x : Bytes) → has xs x ≡ false → has (take n xs) x ≡ false
unfolding has
has-take zero xs x h = refl
has-take (suc n) [] x h = refl
has-take (suc n) (y ∷ xs) x h = ground (arith, has-take n xs x)

take-Distinct : (n : ℕ) (xs : List Bytes) → Distinct xs → Distinct (take n xs)
take-Distinct zero xs d = tt
take-Distinct (suc n) [] d = tt
take-Distinct (suc n) (x ∷ xs) (new, d) = (has-take n xs x new, take-Distinct n xs d)

length-take : (n : ℕ) (xs : List Bytes) → length (take n xs) ≤ n
length-take zero xs = omega arith
length-take (suc n) [] = omega arith
length-take (suc n) (x ∷ xs) = omega (arith, length-take n xs)

abbrev or_none : Option (List Bytes) → List Bytes
or_none none = []
or_none (some xs) = xs

abbrev members_at : Bytes → Dict (List Bytes) → List Bytes
members_at key db = or_none (lookup key db)

abbrev first_of : List Bytes → Bytes
first_of [] = []
first_of (x ∷ xs) = x

abbrev sets : Redis (Dict (List Bytes))
unfolding fresh
sets = record {
  s_add = λ key v db. insert key (v ∷ members_at key db) db;
  set_for = λ key v hours db. insert key (v ∷ []) db;
  get = λ key db. first_of (members_at key db);
  s_rand_member_n = λ chance key n db. take n (fresh (members_at key db));
  l_push = λ key v db. insert key (v ∷ members_at key db) db;
}

sets-IsRedis : IsRedis sets
unfolding sets
sets-IsRedis = record {
  members_distinct =
      λ chance key n db. take-Distinct n (fresh (members_at key db)) (fresh-Distinct _);
  members_bounded = λ chance key n db. length-take n (fresh (members_at key db));
}

abbrev env : Env (Dict (List Bytes))
env = record { codec = plain_codec; redis = sets; token = []; token2 = []; chance = 0 }

-- Clients 1 and 2 are guards, and client 1 is the only exit.
abbrev store : Dict (List Bytes)
store = (bytes "GUARDS", name_of 1 ∷ name_of 2 ∷ []) ∷ (bytes "EXITS", name_of 1 ∷ []) ∷ []

abbrev ask_guard : Cell
ask_guard = record zero_cell { type = bytes "getguard" }

abbrev ask_exit : Cell
ask_exit = record zero_cell { type = bytes "getexit" }

getguard_avoids_example :
    ((minedive_dispatch env server store 1 ask_guard ≡ done ((server, store), []))
      × (length (asked env server store 1 ask_guard (bytes "GUARDS"))
          ≤ length (make_avoid_map (name_of 1) [])))
    ⊎ ((nc : Bytes) × (minedive_dispatch env server store 1 ask_guard
          ≡ done (
            (server, store),
            write server 1 (record ask_guard { type = bytes "guard"; d0 = nc }),
          ))
        × (has (asked env server store 1 ask_guard (bytes "GUARDS")) nc ≡ true)
        × (has (make_avoid_map (name_of 1) []) nc ≡ false))
getguard_avoids_example = getguard_avoids env server store 1 ask_guard sets-IsRedis refl

getexit_cases_example :
    ((minedive_dispatch env server store 1 ask_exit ≡ done ((server, store), []))
      × (length (asked env server store 1 ask_exit (bytes "EXITS"))
          < length (make_avoid_map (name_of 1) [])))
    ⊎ ((nc : Bytes) × (minedive_dispatch env server store 1 ask_exit
          ≡ done
              ((server, store), write server 1 (record ask_exit { type = bytes "exit"; d0 = nc })))
        × (has (asked env server store 1 ask_exit (bytes "EXITS")) nc ≡ true)
        × ((has (make_avoid_map (name_of 1) []) nc ≡ false)
            ⊎ (AllIn
                  (make_avoid_map (name_of 1) [])
                  (asked env server store 1 ask_exit (bytes "EXITS"))
                × (length (asked env server store 1 ask_exit (bytes "EXITS"))
                    ≡ length (make_avoid_map (name_of 1) [])))))
getexit_cases_example = getexit_cases env server store 1 ask_exit sets-IsRedis refl

getexit_avoided_example :
    (nc : Bytes) × (minedive_dispatch env server store 1 ask_exit
      ≡ done ((server, store), write server 1 (record ask_exit { type = bytes "exit"; d0 = nc })))
    × (has (make_avoid_map (name_of 1) []) nc ≡ true)
unfolding has ◌is◌ bytes split make_avoid_map lookup fresh sets
getexit_avoided_example =
    getexit_avoided env server store 1 ask_exit refl refl
      (λ x h. ground (arith, is_iff (name_of 1) x))

-- Client 1, the only exit, leaves, and client 2 asks for an exit.
departed_proposed_example :
    (minedive_dispatch env (disconnect 1 server) store 2 ask_exit
      ≡ answer_of (disconnect 1 server) (minedive_dispatch env server store 2 ask_exit))
    × ((o : Cell)
        → o.type ≡ bytes "offer"
        → o.d1 ≡ name_of 1
        → minedive_dispatch env (disconnect 1 server) store 2 o
          ≡ done ((disconnect 1 server, store), []))
unfolding bytes ◌is◌ request_of
departed_proposed_example =
    departed_proposed env server store 2 1 [] (2 ∷ 3 ∷ []) ask_exit refl tt (refl, (refl, tt))
      (inl refl)

lookup_other :
    (key other : Bytes) (v : List Bytes) (db : Dict (List Bytes))
    → other ≢ key
    → lookup key (insert other v db) ≡ lookup key db
lookup_other key other v db distinct =
    ground (arith, lookup-insert key other v db, is_iff other key, distinct)

sets-IsStore : IsStore sets
unfolding sets
sets-IsStore = record {
  get-set_for = λ key v hours db.
      ap (λ (o : Option (List Bytes)). first_of (or_none o)) (lookup-insert_self key (v ∷ []) db);
  get_other = λ key other v hours db distinct.
      ap (λ (o : Option (List Bytes)). first_of (or_none o))
        (lookup_other key other (v ∷ []) db distinct);
}

abbrev key : Bytes
key = replicate 32 7

abbrev text_of : ℕ → Bytes
text_of n = n ∷ []

abbrev keys_server : MinediveServer
keys_server =
    (accept text_of [] (bytes "b:1") [] 8
      (accept text_of [] (bytes "a:1") [] 7 init_minedive_server).0).0

getk_unnamed_example :
    let after =
      Kremined.minedive_dispatch plain_codec sets keys_server [] 0
        (pubk_cell (plain_codec.encode key)) in
    let answer = record zero_cell { type = bytes "k"; d0 = []; d1 = plain_codec.encode key } in
    (Kremined.minedive_dispatch plain_codec sets after.0 after.1 1 (getk_cell [])
      ≡ (after.0, after.1, write after.0 1 answer))
    × (ws_step node_env (node_of 1) answer
        ≡ done (record (node_of 1) { keys = insert [] key (node_of 1).keys }, []))
    × ((name : Bytes)
        → name ≢ []
        → Kremined.minedive_dispatch plain_codec sets after.0 after.1 1 (getk_cell name)
          ≡ (after.0, after.1, []))
unfolding ◌is◌ lookup sets
getk_unnamed_example =
    getk_unnamed plain_codec sets text_of [] keys_server [] 0 1 key node_env (node_of 1)
      plain_codec-IsCodec sets-IsStore refl refl (λ name other. refl)
      (connect [] (bytes "b:1") [] 8 (connect [] (bytes "a:1") [] 7 start))
      (rw (plain_codec_encode key) refl)
