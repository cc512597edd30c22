-- ===== src/Mined/Reach.antt =====
-- The states that mined comes to, over connections, requests and ends of connections.
mod Opening
mod Closing
mod Asking
pub mod Invariant
pub mod Delivery
pub mod Stopping
use minedive.Common.{
  ℕ, ◌+◌, ◌*◌, ◌%◌, ◌^◌, ◌<◌, ◌≤◌, ◌≡◌, ◌≢◌, ◌⊎◌, some, true, Bytes, lookup, done,
}
use minedive.Protocol.{Cell}
use minedive.Server.State.{MinediveServer, Writes, init_minedive_server}
use minedive.Server.Clients.{accept, disconnect}
use minedive.Server.Clients.Occurrences.{occurrences}
use minedive.Mined.{Env, gettid, gettssid, request_of, minedive_dispatch}
use minedive.Mined.Registered.{IsKeyed, IsUnregistered}

-- One body between the calls of the mutex: a new connection, a request of a client that has
-- connected, or the end of a connection.
pub data Step (text_of : ℕ → Bytes) (s : MinediveServer) : MinediveServer → Type 0 where
  connect :
      (host remote_addr secret : Bytes) (ws : ℕ)
      → Step text_of s (accept text_of host remote_addr secret ws s).0
  request :
      (env : Env) (cli : ℕ) (m : Cell) {s' : MinediveServer} {out : Writes}
      → cli < s.allocated
      → minedive_dispatch env s cli m ≡ done (s', out)
      → Step text_of s s'
  leave : (p : ℕ) → Step text_of s (disconnect p s)

-- From `InitMinediveServer` on.
pub data Reach (text_of : ℕ → Bytes) : MinediveServer → Type 0 where
  start : Reach text_of init_minedive_server
  next : {s s' : MinediveServer} → Reach text_of s → Step text_of s s' → Reach text_of s'

-- The client may get a new name: it is in the slice, and no map points to it. Or the request is
-- not one for a name.
abbrev pub MayAsk : MinediveServer → ℕ → Cell → Type 0
MayAsk s cli m =
    ((1 ≤ occurrences cli s.clients) × IsUnregistered s cli)
    ⊎ ((request_of m.type ≢ gettid) × (request_of m.type ≢ gettssid))

-- A step of a run where clients keep the names under which they are registered. The server does
-- not see to it: a client that sends "gettid" twice makes a step that is not orderly.
abbrev pub IsOrderly : {text_of : ℕ → Bytes} {s s' : MinediveServer} → Step text_of s s' → Type 0
IsOrderly (connect host remote_addr secret ws) = Unit
IsOrderly {s = s} (request env cli m known e) = MayAsk s cli m
IsOrderly (leave p) = Unit

pub data Orderly (text_of : ℕ → Bytes) : MinediveServer → Type 0 where
  begin : Orderly text_of init_minedive_server
  continue :
      {s s' : MinediveServer}
      → Orderly text_of s
      → (t : Step text_of s s') → IsOrderly t
      → Orderly text_of s'

-- The slice holds a client once, the clients' ids count the connections, and every entry of the
-- maps points to a client that has connected and has the flag.
pub record IsConsistent (text_of : ℕ → Bytes) (s : MinediveServer) : Type 0 where
  pub exits_flagged :
      (cn : Bytes) (p : ℕ)
      → lookup cn s.exits ≡ some p
      → (p < s.allocated) × ((s.heap p).exit ≡ true)
  pub guards_flagged :
      (cn : Bytes) (p : ℕ)
      → lookup cn s.guards ≡ some p
      → (p < s.allocated) × ((s.heap p).guard ≡ true)
  pub once : (p : ℕ) → occurrences p s.clients ≤ 1
  pub below : (p : ℕ) → 1 ≤ occurrences p s.clients → p < s.allocated
  pub counted : s.next_id ≡ s.allocated % 2 ^ 64
  pub ids : (p : ℕ) → p < s.allocated → (s.heap p).id ≡ text_of (p % 2 ^ 64)

-- And every entry of the maps points to a client of the slice that has the name.
pub record IsWellFormed (text_of : ℕ → Bytes) (s : MinediveServer) : Type 0 where
  pub keyed : IsKeyed s
  pub exits_listed : (cn : Bytes) (p : ℕ) → lookup cn s.exits ≡ some p → 1 ≤ occurrences p s.clients
  pub guards_listed :
      (cn : Bytes) (p : ℕ) → lookup cn s.guards ≡ some p → 1 ≤ occurrences p s.clients
  pub consistent : IsConsistent text_of s
