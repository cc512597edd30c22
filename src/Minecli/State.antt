-- ===== src/Minecli/State.antt =====
-- cmd/minecli/main.go: the variables of minecli, and what a line meets and does outside.
use minedive.Common.{ℕ, Bool, List, Option, none, some, Bytes, Outcome, done, panic}
use minedive.Codec.{Nacl}
use minedive.Protocol.{Cell}
use minedive.Client.State.{Client, Effect}
use minedive.Client.Circuits.Building.{Creation}
use minedive.Client.Dialling.{Net}

-- The variables of the program; `verbose` is the field `Verbose` of the client.
pub record Cli : Type 0 where
  pub mine_client : Option Client
  pub verbose : Bool
  pub avoid : List Bytes

-- What other goroutines do to the client in a round of the loop of "init": in the wait, and after
-- each call of `DeletePeer`, as they can take the mutex before the next call does.
pub record Wait : Type 0 where
  pub asleep : Client → Client
  pub others : ℕ → Client → Client

-- What a line meets outside. `creation` is for `NewCircuit`. `waits` are the rounds of "init".
-- `sdp` is the description of the peer of "getspd" after its wait, `order` the order of a `range`,
-- and `read_cell` is `json.Unmarshal` into a cell.
pub record World : Type 0 where
  pub net : Net
  pub nacl : Nacl
  pub creation : Creation
  pub waits : List Wait
  pub sdp : Bytes
  pub order : List Bytes
  pub read_cell : Bytes → Option Cell

-- What a line does, in order: it prints texts, or a text and a number, has an effect, sleeps for
-- some seconds, starts `KeepAlive`, or calls `SetupCircuit` on a circuit.
pub data Action : Type 0 where
  print : List Bytes → Action
  print_count : Bytes → ℕ → Action
  effect : Effect → Action
  sleep : ℕ → Action
  keep_alive : ℕ → Action
  setup_circuit : ℕ → Bytes → Bytes → Bytes → Action

-- After a line: the loop reads the next one; the line has not come to its end when `waits` or the
-- fuel of a send ends; `cmdLoop` returns; `os.Exit(1)`.
pub data Next : Type 0 where
  ready : Cli → Next
  unfinished : Next
  ended : Next
  exited : Next

abbrev pub Ran : Type 0
Ran = Outcome (Next × List Action)

abbrev pub stay : Cli → List Action → Ran
stay cli out = done (ready cli, out)

-- A call of a method that reads the client; a nil client panics.
unfoldable pub with_client : Option Client → (Client → Ran) → Ran
with_client none f = panic
with_client (some c) f = f c
