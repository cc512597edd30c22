-- ===== src/Client/Circuits/Sending/Round.antt =====
-- What one round of `Send` does to the nonces, and when it starts again.
use minedive.Common.{
  ℕ, suc, ◌+◌, ◌^◌, ◌≤◌, ◌<◌, ◌≡◌, refl, ap, ◌∙◌, ◌⊎◌, inl, inr, [], none, some, arith, Bytes,
  length, ltb, if◌then◌else◌,
}
use minedive.Codec.{Codec, Nacl}
use minedive.Nonce.{use_nonce}
use minedive.Nonce.Counter.{value, IsBytes, inc_nonce-Counts}
use minedive.Wire.{enc_members, fwd_members}
use minedive.Client.State.{Node, Circuit}
use minedive.Client.Circuits.{sealed, expired, layer, seal_for, wrap, send_round}

-- The number of nonces.
abbrev pub nonces : ℕ
nonces = 256 ^ 24

pub record IsNonce (n : Bytes) : Type 0 where
  pub size : length n ≡ 24
  pub all_bytes : IsBytes n

pub record IsReady (c : Circuit) : Type 0 where
  pub exit : IsNonce c.exit.nonce
  pub bridge : IsNonce c.bridge.nonce
  pub guard : IsNonce c.guard.nonce

-- The same node under another nonce.
abbrev pub with_nonce : Node → Bytes → Node
with_nonce node n = record node { nonce = n }

abbrev pub with_nonces : Circuit → Bytes → Bytes → Bytes → Circuit
with_nonces c e b g = record c {
  exit = with_nonce c.exit e;
  bridge = with_nonce c.bridge b;
  guard = with_nonce c.guard g;
}

-- Each nonce is one more than it was.
abbrev pub Advanced : Circuit → Bytes → Bytes → Bytes → Type 0
Advanced c e b g =
    (value e ≡ value c.exit.nonce + 1)
    × (value b ≡ value c.bridge.nonce + 1)
    × (value g ≡ value c.guard.nonce + 1)

-- The nonce of a node is the last one.
abbrev pub Expires : Circuit → Type 0
Expires c =
    (value c.exit.nonce + 1 ≡ nonces)
    ⊎ (value c.bridge.nonce + 1 ≡ nonces)
    ⊎ (value c.guard.nonce + 1 ≡ nonces)

-- Whether the nonce of a node can expire within `f` rounds.
unfoldable pub risk : ℕ → Bytes → ℕ
risk f n = if ltb (value n + f) nonces then 0 else 1

unfoldable pub risks : ℕ → Circuit → ℕ
unfolding risk
risks f c = risk f c.exit.nonce + risk f c.bridge.nonce + risk f c.guard.nonce

risk_up : (f : ℕ) (n n' : Bytes) → value n' ≡ value n + 1 → risk f n' ≡ risk (suc f) n
unfolding risk
risk_up f n n' e = ground arith

risk_kept : (f : ℕ) (n : Bytes) → risk f n ≤ risk (suc f) n
unfolding risk
risk_kept f n = ground arith

risk_drop :
    (f : ℕ) (n n' : Bytes)
    → f < 4
    → value n + 1 ≡ nonces
    → value n' ≡ 0
    → risk f n' < risk (suc f) n
unfolding risk
risk_drop f n n' h last zeros = ground arith

module _ (codec : Codec) (nacl : Nacl) where
  -- The text of one layer, and of the message that tells a node where to send it on.
  abbrev pub layer_text : Bytes → Node → Bytes → Bytes
  layer_text pub_k node msg = codec.print (enc_members (layer codec nacl pub_k node msg))

  abbrev pub wrap_text : Bytes → Bytes → Bytes
  wrap_text to b = codec.print (fwd_members (wrap codec nacl to b))

  -- The three layers around a message, for the nonces that the nodes have.
  abbrev pub onion : Circuit → Bytes → Bytes
  onion c msg =
      let e = layer_text c.pub_k c.exit msg in
      let b = layer_text c.pub_k c.bridge (wrap_text c.exit.id e) in
      layer_text c.pub_k c.guard (wrap_text c.bridge.id b)

  -- What `seal_for` does to a node: it moves the nonce on by one, or back to zero from the last.
  SealsTo : Bytes → Node → Bytes → Type 0
  SealsTo pub_k node msg =
      (n : Bytes) × IsNonce n
      × (((seal_for codec nacl pub_k node msg
              ≡ sealed (with_nonce node n) (layer_text pub_k (with_nonce node n) msg))
            × (value n ≡ value node.nonce + 1))
          ⊎ ((seal_for codec nacl pub_k node msg ≡ expired (with_nonce node n))
              × (value node.nonce + 1 ≡ nonces)
              × (value n ≡ 0)))

  seal_for_cases :
      (pub_k : Bytes) (node : Node) (msg : Bytes) → IsNonce node.nonce → SealsTo pub_k node msg
  unfolding SealsTo seal_for use_nonce
  seal_for_cases pub_k node msg h =
      let (r, e, (size, all, counted)) =
        inc_nonce-Counts [] node.nonce (length node.nonce) h.all_bytes (inl refl) in
      (
        r.0,
        record { size = size ∙ h.size; all_bytes = all },
        elim counted [
          | inl (g, up) ↦ inl (rw (e, g) refl, up)
          | inr (g, last, zeros) ↦
              inr (rw (e, g) refl, last ∙ ap (λ (k : ℕ). 256 ^ k) h.size, zeros)
        ],
      )

  -- A round sends the onion, or starts again with fewer nonces that can expire.
  unfoldable pub RoundTo : Circuit → Bytes → Type 0
  RoundTo c msg =
      (e b g : Bytes) × IsReady (with_nonces c e b g)
      × (((send_round codec nacl c msg
              ≡ (with_nonces c e b g, some (onion (with_nonces c e b g) msg)))
            × Advanced c e b g)
          ⊎ ((send_round codec nacl c msg ≡ (with_nonces c e b g, none))
              × Expires c
              × ((f : ℕ) → f < 4 → risks f (with_nonces c e b g) < risks (suc f) c)))

  pub round_cases : (c : Circuit) (msg : Bytes) → IsReady c → RoundTo c msg
  unfolding RoundTo SealsTo send_round risks
  round_cases c msg h =
      let e1 = layer_text c.pub_k in
      let (e, he, exit_cases) = seal_for_cases c.pub_k c.exit msg h.exit in
      elim exit_cases [
        | inr (s, last, zeros) ↦ (
          e,
          c.bridge.nonce,
          c.guard.nonce,
          record { exit = he; bridge = h.bridge; guard = h.guard },
          inr (
            rw (s, send_round) refl,
            inl last,
            λ f lt. omega (
              arith,
              risk_drop f c.exit.nonce e lt last zeros,
              risk_kept f c.bridge.nonce,
              risk_kept f c.guard.nonce,
            ),
          ),
        )
        | inl (s, up) ↦
            let m2 = wrap_text c.exit.id (e1 (with_nonce c.exit e) msg) in
            let (b, hb, bridge_cases) = seal_for_cases c.pub_k c.bridge m2 h.bridge in
            elim bridge_cases [
              | inr (s2, last, zeros) ↦ (
                e,
                b,
                c.guard.nonce,
                record { exit = he; bridge = hb; guard = h.guard },
                inr (
                  rw (s, send_round, s2) refl,
                  inr (inl last),
                  λ f lt. omega (
                    arith,
                    risk_drop f c.bridge.nonce b lt last zeros,
                    risk_up f c.exit.nonce e up,
                    risk_kept f c.guard.nonce,
                  ),
                ),
              )
              | inl (s2, up2) ↦
                  let m3 = wrap_text c.bridge.id (e1 (with_nonce c.bridge b) m2) in
                  let (g, hg, guard_cases) = seal_for_cases c.pub_k c.guard m3 h.guard in
                  elim guard_cases [
                    | inr (s3, last, zeros) ↦ (
                      e,
                      b,
                      g,
                      record { exit = he; bridge = hb; guard = hg },
                      inr (
                        rw (s, send_round, s2, s3) refl,
                        inr (inr last),
                        λ f lt. omega (
                          arith,
                          risk_drop f c.guard.nonce g lt last zeros,
                          risk_up f c.exit.nonce e up,
                          risk_up f c.bridge.nonce b up2,
                        ),
                      ),
                    )
                    | inl (s3, up3) ↦ (
                      e,
                      b,
                      g,
                      record { exit = he; bridge = hb; guard = hg },
                      inl (rw (s, send_round, s2, s3) refl, (up, up2, up3)),
                    )
                  ]
            ]
      ]
