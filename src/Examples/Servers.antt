-- ===== src/Examples/Servers.antt =====
-- The servers at concrete states.
use mathlib.Core.List.{Perm}
use minedive.Common.{
  ℕ, ◌≡◌, refl, true, List, [], ◌∷◌, ◌++◌, none, some, arith, Bytes, bytes, ◌is◌, is_iff, has,
  lookup, done,
}
use minedive.Protocol.{Cell, zero_cell}
use minedive.Server.State.{MinediveServer, MinediveClient, zero_client, write}
use minedive.Server.Clients.{get_client_by_name, delete_client_by_name, disconnect, unregister}
use minedive.Server.Clients.Removal.{
  Without, delete_client_by_name_removes, disconnect_removes_namesake,
}
use minedive.Server.Aliases.{get_alias, send_key}
use minedive.Server.Aliases.RoundTrip.{send_key-get_alias}
use minedive.Server.Registry.{Draw, get_exit, get_guard}
use minedive.Server.Registry.Choice.{IsDraw, two_nodes, get_guard_misses}
use minedive.Server.Registry.Rotation.{entry, first_free, rotated, get_guard-rotated}
use minedive.Mined.{Env}
use minedive.Mined.Registered.{IsKeyed}
use minedive.Examples.Packages.{plain_codec, plain_nacl, plain_codec-IsCodec, plain_nacl-IsNacl}

abbrev pub name_of : ℕ → Bytes
name_of p = p ∷ []

-- Client number p has the one-byte name p and the websocket p, and is a guard and an exit.
abbrev client_of : ℕ → MinediveClient
client_of p = record zero_client { name = name_of p; ws = p; exit = true; guard = true }

-- Clients 1, 2 and 3 are guards, 1 and 2 are exits.
abbrev pub server : MinediveServer
server = record {
  heap = client_of;
  allocated = 4;
  clients = 1 ∷ 2 ∷ 3 ∷ [];
  next_id = 4;
  exits = two_nodes (name_of 1) 1 (name_of 2) 2;
  guards = (name_of 1, 1) ∷ (name_of 2, 2) ∷ (name_of 3, 3) ∷ [];
}

abbrev order : List Bytes
order = name_of 1 ∷ name_of 2 ∷ []

abbrev draw : Draw
draw = record { skip = 1; first = order; second = order }

get_guard-rotated_example :
    (get_guard server (name_of 1 ∷ []) draw
      ≡ done (entry server.guards (first_free (name_of 1 ∷ []) (rotated draw))))
    × (get_exit server (name_of 1 ∷ []) draw
        ≡ done (entry server.exits (first_free (name_of 1 ∷ []) (rotated draw))))
get_guard-rotated_example = get_guard-rotated server (name_of 1 ∷ []) draw (λ e. cc e) (λ e. cc e)

abbrev two_guards : MinediveServer
two_guards = record server { guards = two_nodes (name_of 1) 1 (name_of 2) 2 }

get_guard_misses_example :
    (d : Draw) × IsDraw two_guards.guards d
    × (get_guard two_guards (name_of 1 ∷ []) d ≡ done none)
    × (lookup (name_of 2) two_guards.guards ≡ some 2)
unfolding has ◌is◌
get_guard_misses_example =
    get_guard_misses two_guards (name_of 1 ∷ []) (name_of 1) (name_of 2) 1 2 refl refl refl
      (λ e. cc e)

abbrev pub env : Env
env = record {
  codec = plain_codec;
  nacl = plain_nacl;
  token = 5 ∷ 6 ∷ 7 ∷ 8 ∷ [];
  token2 = 5 ∷ 6 ∷ 7 ∷ 8 ∷ [];
  draw = record { skip = 0; first = order ++ name_of 3 ∷ []; second = order };
  peer = 0;
}

pub server-IsKeyed : IsKeyed server
unfolding lookup
server-IsKeyed = record {
  exits_named = λ cn p e. ground (arith, is_iff (name_of 1) cn, is_iff (name_of 2) cn);
  guards_named =
      λ cn p e. ground (arith, is_iff (name_of 1) cn, is_iff (name_of 2) cn, is_iff (name_of 3) cn);
}

-- Client 3 asks for the key behind the alias that client 1 has for client 2.
abbrev alias_request : Cell
alias_request = record zero_cell {
  type = bytes "getkey";
  d0 = get_alias plain_codec plain_nacl (server.heap 1) (name_of 2);
  d1 = name_of 1;
}

send_key-get_alias_example :
    send_key plain_codec plain_nacl server 3 alias_request
    ≡ done (
        write server 3 (record zero_cell {
          type = bytes "key";
          d0 = alias_request.d0;
          d1 = plain_codec.encode (server.heap 2).public_key;
        }))
unfolding get_client_by_name ◌is◌
send_key-get_alias_example =
    send_key-get_alias plain_codec plain_nacl plain_codec-IsCodec plain_nacl-IsNacl server 3 1 2
      (name_of 2) alias_request refl refl refl refl refl

-- Clients 1 and 2 are connected and have no name yet, and client 2 goes.
abbrev nameless : MinediveServer
nameless = record server { heap = λ p. record zero_client { ws = p }; clients = 1 ∷ 2 ∷ [] }

disconnect_removes_namesake_example :
    (rest : List ℕ) × (disconnect 2 nameless
      ≡ unregister (nameless.heap 1) (record nameless { clients = rest }))
    × Perm rest ([] ++ ([] ++ 2 ∷ []))
disconnect_removes_namesake_example = disconnect_removes_namesake nameless [] [] [] 1 2 refl tt refl

delete_client_by_name_removes_example :
    (s' : MinediveServer) × (delete_client_by_name (name_of 2) server ≡ (s', true))
    × Perm s'.clients (1 ∷ 3 ∷ [])
    × (s'.heap ≡ server.heap)
    × Without true (name_of 2) server.exits s'.exits
    × Without true (name_of 2) server.guards s'.guards
unfolding ◌is◌
delete_client_by_name_removes_example =
    delete_client_by_name_removes server (name_of 2) (1 ∷ []) (3 ∷ []) 2 refl (refl, tt) refl
