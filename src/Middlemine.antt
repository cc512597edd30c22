-- ===== src/Middlemine.antt =====
-- cmd/middlemine/main.go: nodes that pass messages on, and answer the searches of second-level
-- peers.
pub mod Answers
use minedive.Common.{
  ℕ, zero, suc, ◌+◌, true, List, [], ◌∷◌, none, some, Bytes, bytes, Outcome, done, ◌>>=◌,
}
use minedive.Codec.{Codec, Nacl}
use minedive.Protocol.{Cell, zero_cell}
use minedive.Wire.{L2Msg, zero_l2, l2_members}
use minedive.Client.State.{Client, Effect, send_cell}
use minedive.Client.L2.{get_l2_peer_if_exists, send_l2}
use minedive.Client.Dialling.{Net, dial_middle}

unfoldable pub fake_answer : Bytes → L2Msg
fake_answer q = record zero_l2 {
  type = bytes "resp";
  query = q;
  text =
      bytes "https://example.com"
      ∷ bytes "http://example.com/"
      ∷ bytes "https://example.com/"
      ∷ bytes "https://nlnet.nl/"
      ∷ bytes
          "https://quitelongexampleurlusefulfortesting.com/sdjioasjg/asjpdaihj90arfau0094/shdga9ohfgaufhahoigdfa/"
      ∷ [];
}

-- `fakeSearch`. It does not read the language, the key and the nonce.
unfoldable pub fake_search : Codec → Nacl → Client → Bytes → Bytes → Outcome (Client × List Effect)
fake_search codec nacl m peer q = elim (get_l2_peer_if_exists m peer) [
  | none ↦ done (m, [])
  | some l2 ↦ send_l2 codec nacl m l2 (codec.print (l2_members (fake_answer q)))
]

-- One round of the loop in `main`: the node, and the cell that its goroutine sends.
start_node : Net → Outcome (Client × List Effect)
start_node net = do
  d ← dial_middle net
  let cell : Cell = record zero_cell { type = bytes "pubk"; d0 = net.codec.encode d.client.pk }
  done (record d.client { has_searcher = true }, send_cell cell ∷ [])

-- The loop, from node `i` on, with as many rounds as are left.
start_nodes : ℕ → ℕ → (ℕ → Net) → Outcome (List (Client × List Effect))
unfolding start_node
start_nodes zero i nets = done []
start_nodes (suc left) i nets = do
  first ← start_node (nets i)
  rest ← start_nodes left (i + 1) nets
  done (first ∷ rest)
