-- ===== src/Server/State.antt =====
-- server.go: `MinediveClient`, `MinediveServer` and the websocket writes. A `*MinediveClient` is a
-- number, and `heap` says what it points to; the pointers from `allocated` on are free. A mutex
-- makes the body between its calls one step, and has no field.
use minedive.Common.{ℕ, Bool, false, List, [], ◌∷◌, Bytes, Dict, ◌==◌, if◌then◌else◌, replicate}
use minedive.Protocol.{Cell}

pub record MinediveClient : Type 0 where
  pub id : Bytes
  pub name : Bytes
  pub tkid : Bytes
  pub secret_key : Bytes
  pub public_key : Bytes
  pub pub_k : Bytes
  pub nonce : Bytes
  pub remote_addr : Bytes
  pub ws : ℕ
  pub exit : Bool
  pub guard : Bool

pub record MinediveServer : Type 0 where
  pub heap : ℕ → MinediveClient
  pub allocated : ℕ
  pub clients : List ℕ
  pub next_id : ℕ
  pub exits : Dict ℕ
  pub guards : Dict ℕ

-- `var cli MinediveClient`; the arrays are zero.
abbrev pub zero_client : MinediveClient
zero_client = record {
  id = [];
  name = [];
  tkid = [];
  secret_key = replicate 32 0;
  public_key = replicate 32 0;
  pub_k = replicate 32 0;
  nonce = replicate 24 0;
  remote_addr = [];
  ws = 0;
  exit = false;
  guard = false;
}

-- `InitMinediveServer`, on the zero server.
unfoldable pub init_minedive_server : MinediveServer
init_minedive_server = record {
  heap = λ p. zero_client;
  allocated = 0;
  clients = [];
  next_id = 0;
  exits = [];
  guards = [];
}

-- An assignment to the fields of `*p`.
unfoldable pub put : ℕ → MinediveClient → MinediveServer → MinediveServer
put p c s = record s { heap = λ q. if q == p then c else s.heap q }

-- The cells written, each to the websocket of that number. No caller looks at the error of
-- `wsjson.Write`.
abbrev pub Writes : Type 0
Writes = List (ℕ × Cell)

-- `wsjson.Write(ctx, cli.Ws, m)`
abbrev pub write : MinediveServer → ℕ → Cell → Writes
write s p m = ((s.heap p).ws, m) ∷ []
