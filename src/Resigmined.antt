-- ===== src/Resigmined.antt =====
-- cmd/resigmined/main.go: sigmined in several instances, each with a queue in redis.
use minedive.Common.{
  ℕ, Bool, List, [], ◌∷◌, ◌++◌, ◌||◌, Option, none, some, Bytes, bytes, ◌is◌, if◌then◌else◌,
}
use minedive.Codec.{Codec}
use minedive.Protocol.{Cell}
use minedive.Server.State.{MinediveServer, Writes, put}
use minedive.Server.Clients.{fwd_to_target}
use minedive.Server.Aliases.{cell_members}
use minedive.Redis.{Redis}

-- "Q_" before the name of a queue.
abbrev pub queue_key : Bytes → Bytes
queue_key name = b'Q' ∷ b'_' ∷ name

-- The packages, `json.Unmarshal` into a cell (`none` is an error), and the flag `queueName`.
pub record Env (R : Type 0) : Type 0 where
  pub codec : Codec
  pub unmarshal : Bytes → Option Cell
  pub redis : Redis R
  pub queue_name : Bytes

module _ {R : Type 0} (env : Env R) where
  -- One item that `BRPop` gives.
  forward_text : MinediveServer → Bytes → Writes
  forward_text s a = elim (env.unmarshal a) [ none ↦ [] | some m ↦ fwd_to_target s m ]

  -- The body of the loop of `signalingDispatch`, on what `BRPop` gives: the key and the item, or
  -- nothing after the time is out.
  unfoldable pub signaling_dispatch : MinediveServer → List Bytes → Writes
  unfolding forward_text
  signaling_dispatch s [] = []
  signaling_dispatch s (a ∷ r) = forward_text s a ++ signaling_dispatch s r

  -- The cell belongs to the clients of this instance.
  is_own : Cell → Bool
  is_own m = (m.d3 is env.queue_name) || (m.d3 is [])

  -- "offer" pushes the text in base64, "answer" as it is.
  handle_offer : MinediveServer → R → Cell → MinediveServer × R × Writes
  unfolding is_own
  handle_offer s db m =
      let b = env.codec.print (cell_members m) in
      if is_own m
      then (s, db, fwd_to_target s m)
      else (s, env.redis.l_push (queue_key env.queue_name) (env.codec.encode b) db, [])

  handle_answer : MinediveServer → R → Cell → MinediveServer × R × Writes
  unfolding is_own
  handle_answer s db m =
      let b = env.codec.print (cell_members m) in
      if is_own m
      then (s, db, fwd_to_target s m)
      else (s, env.redis.l_push (queue_key env.queue_name) b db, [])

  unfoldable pub minedive_dispatch : MinediveServer → R → ℕ → Cell → MinediveServer × R × Writes
  unfolding handle_offer handle_answer
  minedive_dispatch s db cli m =
      if m.type is bytes "sub"
      then (put cli (record (s.heap cli) { name = m.d0 }) s, db, [])
      else if m.type is bytes "offer"
      then handle_offer s db m
      else if m.type is bytes "answer"
      then handle_answer s db m
      else (s, db, [])
