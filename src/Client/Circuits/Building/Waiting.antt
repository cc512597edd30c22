-- ===== src/Client/Circuits/Building/Waiting.antt =====
-- How long `NewCircuit` waits.
use minedive.Common.{
  ℕ, zero, suc, ◌+◌, ◌≤◌, ◌<◌, ◌≡◌, ◌≢◌, ◌⊎◌, refl, inl, inr, true, false, [], some, arith, Bytes,
  ◌is◌, is_iff, ltb, Bool-cases,
}
use minedive.Client.Circuits.Building.{wait_id}

wait_id-cases :
    (fuel failed : ℕ) (seen : ℕ → Bytes)
    → fuel + failed ≡ 12
    → 0 < fuel
    → ((i : ℕ) × (wait_id fuel failed seen ≡ some true) × (i < 12) × (seen i ≢ []))
      ⊎ ((wait_id fuel failed seen ≡ some false) × ((i : ℕ) → failed ≤ i → i < 12 → seen i ≡ []))
unfolding wait_id
wait_id-cases zero failed seen h pos = absurd (omega arith)
wait_id-cases (suc fuel) failed seen h pos = elim (Bool-cases (seen failed is [])) [
  | inr named ↦
      inl (failed, rw named refl, omega (arith, h), λ e. ground (arith, is_iff (seen failed) []))
  | inl unnamed ↦ elim (Bool-cases (ltb 10 failed)) [
    | inl late ↦
        let past : 10 < failed = ground arith in
        inr (rw (unnamed, late) refl, λ i from to. ground (arith, is_iff (seen failed) [], h, past))
    | inr early ↦
        let soon : failed ≤ 10 = ground arith in
        elim (wait_id-cases fuel (failed + 1) seen (omega (arith, h)) (omega (arith, h, soon))) [
          | inl (i, e, below, found) ↦ inl (i, rw (unnamed, early) e, below, found)
          | inr (e, none_later) ↦ inr (
            rw (unnamed, early) e,
            λ i from to. ground (arith, is_iff (seen failed) [], none_later i),
          )
        ]
  ]
]

-- Each of the three waits of `NewCircuit` comes to an end. It leaves with a name if one comes
-- within the twelve reads, and fails exactly if none does.
pub wait_id_total :
    (seen : ℕ → Bytes)
    → ((i : ℕ) × (wait_id 12 0 seen ≡ some true) × (i < 12) × (seen i ≢ []))
      ⊎ ((wait_id 12 0 seen ≡ some false) × ((i : ℕ) → i < 12 → seen i ≡ []))
wait_id_total seen = elim (wait_id-cases 12 0 seen refl (omega arith)) [
  | inl found ↦ inl found
  | inr (e, none_named) ↦ inr (e, λ i below. none_named i (omega arith) below)
]
