-- ===== src/Client/Circuits/Sending.antt =====
-- `Send` comes to an end, and sends the message in three layers under nonces that moved on.
pub mod Round
use minedive.Common.{
  ℕ, zero, suc, ◌+◌, ◌^◌, ◌≤◌, ◌<◌, ◌≡◌, refl, ap, ◌∙◌, ◌⊎◌, inl, inr, [], none, some, arith, Bytes,
  length, ltb, if◌then◌else◌, done,
}
use minedive.Codec.{Codec, Nacl}
use minedive.Nonce.{use_nonce}
use minedive.Nonce.Counter.{value, IsBytes, inc_nonce-Counts}
use minedive.Wire.{enc_members, fwd_members}
use minedive.Client.State.{Node, Circuit, send_text}
use minedive.Client.Circuits.{sealed, expired, layer, seal_for, wrap, send_round, send_rounds, send}
pub use minedive.Client.Circuits.Sending.Round.{
  nonces, IsNonce, IsReady, with_nonce, with_nonces, Advanced, Expires, layer_text, wrap_text,
  onion, risk, risks, RoundTo, round_cases,
}

module _ (codec : Codec) (nacl : Nacl) where
  -- The circuit differs in the nonces only.
  SendsFrom : ℕ → Circuit → Bytes → Type 0
  SendsFrom fuel c msg =
      (e b g : Bytes) × IsReady (with_nonces c e b g)
      × (send_rounds codec nacl fuel c msg
          ≡ some (with_nonces c e b g, onion codec nacl (with_nonces c e b g) msg))

  send_rounds_sent :
      (f : ℕ) (c c' : Circuit) (msg b : Bytes)
      → send_round codec nacl c msg ≡ (c', some b)
      → send_rounds codec nacl (suc f) c msg ≡ some (c', b)
  unfolding send_rounds
  send_rounds_sent f c c' msg b s = ground arith

  send_rounds_retry :
      (f : ℕ) (c c' : Circuit) (msg : Bytes)
      → send_round codec nacl c msg ≡ (c', none)
      → send_rounds codec nacl (suc f) c msg ≡ send_rounds codec nacl f c' msg
  unfolding send_rounds
  send_rounds_retry f c c' msg s = ground arith

  send_rounds_total :
      (fuel : ℕ) (c : Circuit) (msg : Bytes)
      → fuel ≤ 4
      → IsReady c
      → risks fuel c < fuel
      → SendsFrom fuel c msg
  unfolding SendsFrom RoundTo
  send_rounds_total zero c msg le h lt = elim lt [ ]
  send_rounds_total (suc fuel) c msg le h lt =
      let (e, b, g, ready, sent) = round_cases codec nacl c msg h in
      elim sent [
        | inl (s, up) ↦ (e, b, g, ready, send_rounds_sent fuel c _ msg _ s)
        | inr (s, last, fewer) ↦
            let (e', b', g', ready', rest) =
              send_rounds_total fuel (with_nonces c e b g) msg (omega arith) ready
                (omega (arith, fewer fuel (omega arith))) in
            (e', b', g', ready', send_rounds_retry fuel c _ msg s ∙ rest)
      ]

  risks-lt-four : (c : Circuit) → risks 4 c < 4
  unfolding risks risk
  risks-lt-four c = ground arith

  -- `Send` comes to an end within four rounds, whatever the nonces of the three nodes: it writes
  -- one text to the data channel of the guard, and changes nothing but the nonces. The text is the
  -- onion under the nonces that it leaves.
  pub send_total :
      (c : Circuit) (msg : Bytes) (dc : ℕ)
      → IsReady c
      → c.dc ≡ some dc
      → (e b g : Bytes) × IsReady (with_nonces c e b g)
        × (send codec nacl 4 c msg
            ≡ some (
                done
                  (with_nonces c e b g, send_text dc (onion codec nacl (with_nonces c e b g) msg))))
  unfolding send SendsFrom
  send_total c msg dc h open_dc =
      let (e, b, g, ready, sent) = send_rounds_total 4 c msg (omega arith) h (risks-lt-four c) in
      (e, b, g, ready, rw (sent, send, open_dc) refl)

  -- While no nonce is the last one, `Send` needs one round, and each of the three nonces under
  -- which it seals is the one after that of the message before: no nonce comes again.
  pub send_advances :
      (c : Circuit) (msg : Bytes) (dc : ℕ)
      → IsReady c
      → c.dc ≡ some dc
      → ¬ Expires c
      → (e b g : Bytes) × Advanced c e b g
        × (send codec nacl 1 c msg
            ≡ some (
                done
                  (with_nonces c e b g, send_text dc (onion codec nacl (with_nonces c e b g) msg))))
  unfolding send RoundTo
  send_advances c msg dc h open_dc fresh =
      let (e, b, g, ready, sent) = round_cases codec nacl c msg h in
      elim sent [
        | inl (s, up) ↦ (e, b, g, up, rw (send_rounds_sent 0 c _ msg _ s, send, open_dc) refl)
        | inr (s, last, fewer) ↦ absurd (fresh last)
      ]
