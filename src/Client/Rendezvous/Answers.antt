-- ===== src/Client/Rendezvous/Answers.antt =====
-- An answer to an offer that was not made.
use minedive.Common.{ℕ, ◌≡◌, refl, ap, ◌∙◌, none, List, ◌∷◌, ◌++◌, bytes, ◌is◌, done, panic}
use minedive.Protocol.{Cell}
use minedive.Server.State.{MinediveServer, Writes}
use minedive.Server.Clients.{fwd_loop}
use minedive.Server.Clients.Forwarding.{fwd_to_target-member}
use minedive.Mined.{Env as ServerEnv, minedive_dispatch}
use minedive.Mined.Signaling.{minedive_dispatch-answer}
use minedive.Client.State.{Client}
use minedive.Client.Peers.{get_peer}
use minedive.Client.Rendezvous.{Env, answer, reply_of, handle, accept_answer, ws_step}

reply_of_answer : reply_of (bytes "answer") ≡ answer
unfolding reply_of ◌is◌ bytes
reply_of_answer = refl

-- An answer from a name that the node does not know as a peer.
pub ws_step_panics :
    (env : Env) (node : Client) (m : Cell)
    → m.type ≡ bytes "answer"
    → get_peer node m.d0 ≡ none
    → ws_step env node m ≡ panic
unfolding ws_step handle accept_answer
ws_step_panics env node m ht unknown =
    ap (handle env node m) (ap reply_of ht ∙ reply_of_answer)
    ∙ rw (unknown, handle, accept_answer) refl

-- A client of mined can stop any other node. It sends an answer that names the node as its target
-- and, as its sender, a name that the node has no peer of; the server writes the cell to the node
-- as it is, whoever the client is; and the step of the node on that cell panics.
pub answer_stops_node :
    (server_env : ServerEnv) (s : MinediveServer) (cli v : ℕ) (m : Cell) (front back : List ℕ)
    (env : Env) (node : Client)
    → m.type ≡ bytes "answer"
    → s.clients ≡ front ++ v ∷ back
    → (s.heap v).name ≡ m.d1
    → get_peer node m.d0 ≡ none
    → (minedive_dispatch server_env s cli m
        ≡ done (s, fwd_loop s m front ++ ((s.heap v).ws, m) ∷ fwd_loop s m back))
      × (ws_step env node m ≡ panic)
answer_stops_node server_env s cli v m front back env node ht listed named unknown = (
  minedive_dispatch-answer server_env s cli m ht
      ∙ ap (λ (w : Writes). done (s, w)) (fwd_to_target-member s m front back v listed named),
  ws_step_panics env node m ht unknown,
)
