-- ===== src/Mined/Signaling.antt =====
-- Offers and answers, which the server passes on as they are.
use minedive.Common.{ℕ, ◌≡◌, refl, ap, ◌∙◌, bytes, ◌is◌, done}
use minedive.Protocol.{Cell}
use minedive.Server.State.{MinediveServer}
use minedive.Server.Clients.{fwd_to_target}
use minedive.Mined.{Env, offer, answer, request_of, handle, minedive_dispatch}

request_of_answer : request_of (bytes "answer") ≡ answer
unfolding request_of ◌is◌ bytes
request_of_answer = refl

pub minedive_dispatch-answer :
    (env : Env) (s : MinediveServer) (cli : ℕ) (m : Cell)
    → m.type ≡ bytes "answer"
    → minedive_dispatch env s cli m ≡ done (s, fwd_to_target s m)
unfolding minedive_dispatch handle
minedive_dispatch-answer env s cli m ht =
    ap (handle env s cli m) (ap request_of ht ∙ request_of_answer)

request_of_offer : request_of (bytes "offer") ≡ offer
unfolding request_of ◌is◌ bytes
request_of_offer = refl

pub minedive_dispatch-offer :
    (env : Env) (s : MinediveServer) (cli : ℕ) (m : Cell)
    → m.type ≡ bytes "offer"
    → minedive_dispatch env s cli m ≡ done (s, fwd_to_target s m)
unfolding minedive_dispatch handle
minedive_dispatch-offer env s cli m ht =
    ap (handle env s cli m) (ap request_of ht ∙ request_of_offer)
