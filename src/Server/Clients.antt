-- ===== src/Server/Clients.antt =====
-- server.go: the slice `clients`.
pub mod Removal
pub mod Forwarding
pub mod Occurrences
pub mod Departure
use minedive.Common.{
  ℕ, ◌+◌, ◌-◌, Bool, true, false, List, [], ◌∷◌, ◌++◌, Option, none, some, Bytes, bytes, ◌is◌, ltb,
  ◌==◌, ◌%◌, ◌^◌, if◌then◌else◌, length, take, set, get_or, split,
}
use minedive.Protocol.{Cell}
use minedive.Server.State.{MinediveServer, MinediveClient, Writes, write, put, zero_client}
use minedive.Server.Registry.{del_exit, del_guard}

-- The loop of `DeleteClientByName`: the index of the first client of the name.
find_index : MinediveServer → Bytes → ℕ → List ℕ → Option ℕ
find_index s name n [] = none
find_index s name n (c ∷ cs) =
    let rest = find_index s name (n + 1) cs in if (s.heap c).name is name then some n else rest

-- `clients[n] = clients[len-1]; clients = clients[:len-1]`
swap_remove : ℕ → List ℕ → List ℕ
swap_remove n cs = take (length cs - 1) (set cs n (get_or cs (length cs - 1) 0))

-- What follows the removal: the client leaves the maps that its flags name.
unfoldable pub unregister : MinediveClient → MinediveServer → MinediveServer
unregister c s =
    let s' = if c.exit then del_exit c.name s else s in if c.guard then del_guard c.name s' else s'

-- The server and whether the error is nil.
unfoldable pub delete_client_by_name : Bytes → MinediveServer → MinediveServer × Bool
unfolding find_index swap_remove unregister
delete_client_by_name name s = elim (find_index s name 0 s.clients) [
  | none ↦ (s, false)
  | some n ↦ (
    unregister (s.heap (get_or s.clients n 0)) (record s { clients = swap_remove n s.clients }),
    true,
  )
]

-- The loop of `GetClientByName`; `none` is the error "Client not found".
first_named : MinediveServer → Bytes → List ℕ → Option ℕ
first_named s name [] = none
first_named s name (c ∷ cs) = if (s.heap c).name is name then some c else first_named s name cs

unfoldable pub get_client_by_name : MinediveServer → Bytes → Option ℕ
unfolding first_named
get_client_by_name s name = first_named s name s.clients

-- `none` is an error; `i` is what `rand.Intn(len(s.clients))` draws.
unfoldable pub get_other_peer : MinediveServer → ℕ → ℕ → Option ℕ
get_other_peer s cli i =
    let c = get_or s.clients i 0 in
    if ltb 1 (length s.clients) then (if c == cli then none else some c) else none

-- The loop of `FwdToTarget`: every client of the name gets the cell.
pub fwd_loop : MinediveServer → Cell → List ℕ → Writes
fwd_loop s m [] = []
fwd_loop s m (c ∷ cs) =
    let rest = fwd_loop s m cs in if (s.heap c).name is m.d1 then write s c m ++ rest else rest

unfoldable pub fwd_to_target : MinediveServer → Cell → Writes
unfolding fwd_loop
fwd_to_target s m = fwd_loop s m s.clients

-- `MinediveAccept` up to `websocket.Accept`: the address to log. `host` is the header X-Real-IP.
remote_address : Bytes → Bytes → Bytes
remote_address host remote_addr = elim host [
  | [] ↦ remote_addr
  | h ∷ hs ↦ with_port (h ∷ hs) (split b':' remote_addr)
]
  where
    with_port : Bytes → List Bytes → Bytes
    with_port host' (address ∷ port ∷ []) = host' ++ (bytes ":" ++ port)
    with_port host' other = host' ++ (bytes "(" ++ (remote_addr ++ bytes ")"))

-- `MinediveAccept` from there to its loop. `text_of` is `fmt.Sprintf("%d", ◌)`, `secret` is what
-- `crypto/rand` fills the key with. A failure of that is logged only.
unfoldable pub accept :
    (ℕ → Bytes) → Bytes → Bytes → Bytes → ℕ → MinediveServer → MinediveServer × ℕ
unfolding remote_address
accept text_of host remote_addr secret ws s =
    let p = s.allocated in
    let cli : MinediveClient = record zero_client {
      id = text_of s.next_id;
      ws = ws;
      remote_addr = remote_address host remote_addr;
      secret_key = secret;
    } in
    let s' = put p cli s in
    (
      record s' {
        allocated = p + 1;
        next_id = (s.next_id + 1) % 2 ^ 64;
        clients = s.clients ++ p ∷ [];
      },
      p,
    )

-- The read error that ends the loop of `MinediveAccept`.
unfoldable pub disconnect : ℕ → MinediveServer → MinediveServer
disconnect p s = (delete_client_by_name (s.heap p).name s).0
