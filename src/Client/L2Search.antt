-- ===== src/Client/L2Search.antt =====
-- client.go: `HandleL2Msg`, for a message that came through a gateway from a second-level peer.
pub mod Answers
use minedive.Common.{
  ℕ, true, List, [], ◌∷◌, ◌++◌, Option, none, some, Bytes, bytes, ◌is◌, if◌then◌else◌, Outcome,
  done, panic, ◌>>=◌,
}
use minedive.Codec.{Codec, Nacl}
use minedive.Wire.{read_fwd, members, read_l2}
use minedive.Client.State.{Client, Effect, search, respond}
use minedive.Client.L2.{get_l2_peer, decode_l2_msg}

module _ (codec : Codec) (nacl : Nacl) where
  -- The attempts from the label RETRY, each with the key that the peer has by then: other
  -- goroutines may set it during the waits.
  attempts : List Bytes → Bytes → Outcome (Option Bytes)
  attempts [] emsg = done none
  attempts (k ∷ ks) emsg =
      let rest = attempts ks emsg in
      elim (decode_l2_msg codec nacl k emsg) [
        | panic ↦ panic
        | done none ↦ rest
        | done (some b) ↦ done (some b)
      ]

  -- The switch on the type of the decrypted message.
  deliver : Client → ℕ → Bytes → List Effect
  deliver c l2 b =
      let dm = read_l2 (members codec b) in
      if dm.type is bytes "search"
      then (if c.has_searcher then search (c.l2 l2).name dm.query dm.lang [] [] ∷ [] else [])
      else if dm.type is bytes "resp"
      then (if c.has_responder then respond b ∷ [] else [])
      else []

  deliver_opt : Client → ℕ → Option Bytes → List Effect
  deliver_opt c l2 none = []
  deliver_opt c l2 (some b) = deliver c l2 b

  -- `k2` and `k3` are the keys of the peer after the first and after the second wait.
  unfoldable pub handle_l2_msg : Client → ℕ → Bytes → Bytes → Bytes → Outcome (Client × List Effect)
  unfolding attempts deliver deliver_opt
  handle_l2_msg c gw msg_text k2 k3 = do
    let m = read_fwd (members codec msg_text)
    found ← get_l2_peer c m.ori (some gw) true
    let (c', l2, out) = found
    b ← attempts ((c'.l2 l2).k ∷ k2 ∷ k3 ∷ []) m.msg
    done (c', out ++ deliver_opt c' l2 b)
