-- ===== src/Client/Rendezvous/Signals.antt =====
-- An offer, and an answer to an offer that was made.
use minedive.Common.{◌≡◌, refl, ap, ◌∙◌, ℕ, true, false, [], ◌∷◌, bytes, ◌is◌, none, some, done}
use minedive.Protocol.{Cell}
use minedive.Client.State.{Client, dial_peer, set_remote, put_peer}
use minedive.Client.Peers.{get_peer}
use minedive.Client.Rendezvous.{
  Env, offer, answer, reply_of, handle, accept_offer, accept_answer, ws_step,
}

reply_of_offer : reply_of (bytes "offer") ≡ offer
unfolding reply_of ◌is◌ bytes
reply_of_offer = refl

reply_of_answer : reply_of (bytes "answer") ≡ answer
unfolding reply_of ◌is◌ bytes
reply_of_answer = refl

-- An offer of a node that is no peer.
pub ws_step-offer :
    (env : Env) (c : Client) (m : Cell)
    → m.type ≡ bytes "offer"
    → get_peer c m.d0 ≡ none
    → ws_step env c m
      ≡ done
          (c, dial_peer m.d0 (bytes "XXX") false false ∷ set_remote m.d0 (bytes "offer") m.d2 ∷ [])
unfolding ws_step handle accept_offer
ws_step-offer env c m ht unknown =
    ap (handle env c m) (ap reply_of ht ∙ reply_of_offer) ∙ rw (accept_offer, unknown, handle) refl

-- An answer of a peer whose connection waits for one.
pub ws_step-answer :
    (env : Env) (c : Client) (p : ℕ) (m : Cell)
    → m.type ≡ bytes "answer"
    → get_peer c m.d0 ≡ some p
    → env.offered p ≡ true
    → ws_step env c m
      ≡ done (
        put_peer p (record (c.peer p) { sdp = m.d2 }) c,
        set_remote m.d0 (bytes "answer") m.d2 ∷ [],
      )
unfolding ws_step handle accept_answer
ws_step-answer env c p m ht known waits =
    ap (handle env c m) (ap reply_of ht ∙ reply_of_answer)
    ∙ rw (accept_answer, known, waits, handle) refl
