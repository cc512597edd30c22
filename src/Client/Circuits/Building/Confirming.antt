-- ===== src/Client/Circuits/Building/Confirming.antt =====
-- circuit.go: the end of `SetupCircuit`, which sends its test until the state is "OK".
use minedive.Common.{
  ℕ, zero, suc, ◌+◌, ◌*◌, ◌-◌, ◌≤◌, ◌<◌, ◌≡◌, ◌⊎◌, refl, inl, inr, Bool, true, false, Option, none,
  some, arith, ltb, if◌then◌else◌, Bool-cases,
}

-- The two counters of the loop, the reads of the state so far, and the tests sent so far.
pub record Trial : Type 0 where
  pub failed_wait : ℕ
  pub failed_send : ℕ
  pub reads : ℕ
  pub sends : ℕ

-- The counters when the first test has been sent.
abbrev pub first_trial : Trial
first_trial = record { failed_wait = 0; failed_send = 0; reads = 0; sends = 1 }

-- One more wait, and one more test.
abbrev waited_more : Trial → Trial
waited_more t = record t { failed_wait = t.failed_wait + 1; reads = t.reads + 1 }

abbrev sent_again : Trial → Trial
sent_again t = record {
  failed_wait = 0;
  failed_send = t.failed_send + 1;
  reads = t.reads + 1;
  sends = t.sends + 1;
}

-- From WAITTEST, after a read that was not "OK": what comes next, or `none` where the loop gives
-- up.
next_trial : Trial → Option Trial
next_trial t =
    if ltb t.failed_wait 5
    then some (waited_more t)
    else if ltb t.failed_send 5
    then some (sent_again t)
    else none

-- The loop; `ok i` is whether the read after `i` others finds the state "OK". The result is whether
-- it did, with the counters; `none` means that the fuel ran out.
unfoldable pub wait_test : ℕ → (ℕ → Bool) → Trial → Option (Bool × Trial)
unfolding next_trial
wait_test zero ok t = none
wait_test (suc fuel) ok t = elim (ok t.reads) [
  | true ↦ some (true, t)
  | false ↦ elim (next_trial t) [ none ↦ some (false, t) | some t' ↦ wait_test fuel ok t' ]
]

-- Six reads belong to each test.
record IsTrial (t : Trial) : Type 0 where
  counted : t.reads ≡ 6 * t.failed_send + t.failed_wait
  sent : t.sends ≡ t.failed_send + 1
  waits : t.failed_wait ≤ 5
  tries : t.failed_send ≤ 5

Ends : (ℕ → Bool) → Trial → Option (Bool × Trial) → Type 0
Ends ok from r =
    ((t : Trial) × (r ≡ some (true, t))
      × (ok t.reads ≡ true)
      × (t.reads < 36)
      × (t.sends ≤ 6)
      × (6 * t.sends ≤ t.reads + 6)
      × (t.reads < 6 * t.sends)
      × ((i : ℕ) → from.reads ≤ i → i < t.reads → ok i ≡ false))
    ⊎ ((t : Trial) × (r ≡ some (false, t))
        × (t.sends ≡ 6)
        × ((i : ℕ) → from.reads ≤ i → i < 36 → ok i ≡ false))

next_trial_cases :
    (t : Trial)
    → IsTrial t
    → ((t' : Trial) × (next_trial t ≡ some t') × IsTrial t' × (t'.reads ≡ t.reads + 1))
      ⊎ ((next_trial t ≡ none) × (t.sends ≡ 6) × (t.reads ≡ 35))
unfolding next_trial
next_trial_cases t h = elim (Bool-cases (ltb t.failed_wait 5)) [
  | inl waits ↦ inl (waited_more t, rw waits refl, ground arith, refl)
  | inr waited ↦ elim (Bool-cases (ltb t.failed_send 5)) [
    | inl sends ↦ inl (sent_again t, rw (waited, sends) refl, ground arith, refl)
    | inr spent ↦ inr (rw (waited, spent) refl, ground arith, ground arith)
  ]
]

-- What the loop finds from a later read on, it finds from this one on too.
Ends-later :
    (ok : ℕ → Bool) (t t' : Trial) (r : Option (Bool × Trial))
    → ok t.reads ≡ false
    → t'.reads ≡ t.reads + 1
    → Ends ok t' r
    → Ends ok t r
unfolding Ends
Ends-later ok t t' r missed later (inl (u, e, found, reads, sends, low, high, before)) =
    inl (u, e, found, reads, sends, low, high, λ i from to. ground (arith, before i, missed, later))
Ends-later ok t t' r missed later (inr (u, e, sends, before)) =
    inr (u, e, sends, λ i from to. ground (arith, before i, missed, later))

wait_test-Ends :
    (fuel : ℕ) (ok : ℕ → Bool) (t : Trial)
    → IsTrial t
    → 36 - t.reads ≤ fuel
    → Ends ok t (wait_test fuel ok t)
unfolding wait_test
wait_test-Ends zero ok t h enough = absurd (omega arith)
wait_test-Ends (suc fuel) ok t h enough = elim (Bool-cases (ok t.reads)) [
  | inl found ↦
      unfold Ends in
      inl (
        t,
        rw (found, wait_test) refl,
        found,
        omega arith,
        omega arith,
        omega arith,
        omega arith,
        λ i from to. absurd (omega arith),
      )
  | inr missed ↦ elim (next_trial_cases t h) [
    | inl (t', e, h', later) ↦
        let rest = wait_test-Ends fuel ok t' h' (omega (arith, later, enough)) in
        Ends-later ok t t' _ missed later (rw (missed, wait_test, e) rest)
    | inr (e, sends, last) ↦
        unfold Ends in
        inr (t, rw (missed, wait_test, e) refl, sends, λ i from to. ground (arith, missed, last))
  ]
]

-- The end of `SetupCircuit` comes to an end. If the state is "OK" at one of its reads, it sent one
-- test for each six reads up to then; if not, it gives up after 36 reads and six tests.
pub wait_test_total :
    (ok : ℕ → Bool)
    → ((t : Trial) × (wait_test 36 ok first_trial ≡ some (true, t))
        × (ok t.reads ≡ true)
        × (t.reads < 36)
        × (6 * t.sends ≤ t.reads + 6)
        × (t.reads < 6 * t.sends)
        × ((i : ℕ) → i < t.reads → ok i ≡ false))
      ⊎ ((t : Trial) × (wait_test 36 ok first_trial ≡ some (false, t))
          × (t.sends ≡ 6)
          × ((i : ℕ) → i < 36 → ok i ≡ false))
unfolding Ends
wait_test_total ok = elim (wait_test-Ends 36 ok first_trial (omega arith) (omega arith)) [
  | inl (t, e, found, reads, sends, low, high, before) ↦
      inl (t, e, found, reads, low, high, λ i to. before i (omega arith) to)
  | inr (t, e, sends, before) ↦ inr (t, e, sends, λ i to. before i (omega arith) to)
]
