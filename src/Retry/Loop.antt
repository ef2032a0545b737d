-- ===== src/Retry/Loop.antt =====
-- What Do guarantees, whatever it retries: it ends after at most four calls, it succeeds when one of
-- them does before an error that is not retriable, and what each call keeps, it keeps.
use go_yandex_practicum_metr.Prelude.{
  ℕ, zero, suc, ◌+◌, ◌≤◌, Bool, true, false, none, some, ◌≡◌, ◌∙◌, refl, ap, arith, if◌then◌else◌,
  Bool-cases, inl, inr,
}
use go_yandex_practicum_metr.GoError.{GoError}
use go_yandex_practicum_metr.Retry.{
  Outcome, RetryLib, RetryLaws, after_attempt, do_with_delays, retry_do,
}

-- A call that began where `P` holds and left `r`: with no error, `Q` holds; with an error, `P` still.
abbrev pub Ends : {S : Type 0} → (S → Type 0) → (S → Type 0) → Outcome S → Type 0
Ends P Q (none, s) = Q s
Ends P Q (some e, s) = P s

-- A function with a count of its calls.
abbrev pub counted : {S : Type 0} → (S → Outcome S) → S × ℕ → Outcome (S × ℕ)
counted fn (s, c) = ((fn s).0, ((fn s).1, suc c))

-- `k` calls that fail with retriable errors, then one without an error that leaves `t`.
abbrev pub FailsThen : {S : Type 0} → (S → Outcome S) → (GoError → Bool) → ℕ → S → S → Type 0
FailsThen fn p zero s t = fn s ≡ (none, t)
FailsThen {S} fn p (suc k) s t =
    (e : GoError) × (u : S) × (fn s ≡ (some e, u)) × (p e ≡ true) × FailsThen fn p k u t

module _ (lib : RetryLib) (laws : RetryLaws lib) {S : Type 0} (p : GoError → Bool) where
  after_attempt-Ends :
      (P Q : S → Type 0) (n : ℕ) (again : S → Outcome S) (r : Outcome S)
      → ((s : S) → P s → Ends P Q (again s))
      → Ends P Q r
      → Ends P Q (after_attempt n p again r)
  after_attempt-Ends P Q zero again r more h = h
  after_attempt-Ends P Q (suc n) again (none, s) more h = h
  after_attempt-Ends P Q (suc n) again (some e, s) more h = by_test (p e)
    where
      by_test : (b : Bool) → Ends P Q (if b then again s else (some e, s))
      by_test true = more s h
      by_test false = h

  run-Ends :
      (P Q : S → Type 0) (fn : S → Outcome S)
      → ((s : S) → P s → Ends P Q (fn s))
      → (n : ℕ) (delay : ℕ → ℕ) (s : S) → P s
      → Ends P Q (lib.run (suc n) p delay fn s)
  run-Ends P Q fn h zero delay s ps = rw (laws.run-suc zero p delay fn s) (h s ps)
  run-Ends P Q fn h (suc n) delay s ps =
      rw (laws.run-suc (suc n) p delay fn s) (
        after_attempt-Ends P Q (suc n) _ (fn s) (run-Ends P Q fn h n (λ k. delay (suc k))) (h s ps))

  -- What a call keeps, Do keeps; and what a call without an error reaches, so does Do.
  pub retry_do-Ends :
      (P Q : S → Type 0) (fn : S → Outcome S)
      → ((s : S) → P s → Ends P Q (fn s))
      → (s : S) → P s
      → Ends P Q (retry_do lib fn p s)
  unfolding retry_do do_with_delays
  retry_do-Ends P Q fn h s ps = run-Ends P Q fn h 3 _ s ps

  Ends-grows :
      (P Q : ℕ → S → Type 0) (i j : ℕ) (r : Outcome S)
      → ((s : S) → P i s → P j s)
      → ((s : S) → Q i s → Q j s)
      → Ends (P i) (Q i) r
      → Ends (P j) (Q j) r
  Ends-grows P Q i j (none, s) pm qm h = qm s h
  Ends-grows P Q i j (some e, s) pm qm h = pm s h

  after_attempt-within :
      (P Q : ℕ → S → Type 0) (i j n : ℕ) (again : S → Outcome S) (r : Outcome S)
      → ((s : S) → P i s → P j s)
      → ((s : S) → Q i s → Q j s)
      → ((s : S) → P i s → Ends (P j) (Q j) (again s))
      → Ends (P i) (Q i) r
      → Ends (P j) (Q j) (after_attempt (suc n) p again r)
  after_attempt-within P Q i j n again (none, s) pm qm more h = qm s h
  after_attempt-within P Q i j n again (some e, s) pm qm more h = by_test (p e)
    where
      by_test : (b : Bool) → Ends (P j) (Q j) (if b then again s else (some e, s))
      by_test true = more s h
      by_test false = pm s h

  module _ (P Q : ℕ → S → Type 0) (fn : S → Outcome S)
      (step : (i : ℕ) (s : S) → P i s → Ends (P (suc i)) (Q (suc i)) (fn s))
      (p_grows : (i j : ℕ) (s : S) → i ≤ j → P i s → P j s)
      (q_grows : (i j : ℕ) (s : S) → i ≤ j → Q i s → Q j s) where
    run-within :
        (i j n : ℕ) (delay : ℕ → ℕ) (s : S)
        → suc (i + n) ≤ j
        → P i s
        → Ends (P j) (Q j) (lib.run (suc n) p delay fn s)
    run-within i j zero delay s le ps = rw (laws.run-suc zero p delay fn s) (
        Ends-grows P Q (suc i) j (fn s) (λ t. p_grows (suc i) j t (omega (arith, le)))
          (λ t. q_grows (suc i) j t (omega (arith, le))) (step i s ps))
    run-within i j (suc n) delay s le ps = rw (laws.run-suc (suc n) p delay fn s) (
        after_attempt-within P Q (suc i) j n (lib.run (suc n) p (λ k. delay (suc k)) fn) (fn s)
          (λ t. p_grows (suc i) j t (omega (arith, le)))
          (λ t. q_grows (suc i) j t (omega (arith, le)))
          (λ t. run-within (suc i) j n (λ k. delay (suc k)) t (omega (arith, le))) (step i s ps))

    -- With a bound on what one call adds there is one for Do, which makes at most four.
    pub retry_do-within : (s : S) → P 0 s → Ends (P 4) (Q 4) (retry_do lib fn p s)
    unfolding retry_do do_with_delays
    retry_do-within s ps = run-within 0 4 3 _ s (omega arith) ps

  run-succeeds :
      (fn : S → Outcome S) (n k : ℕ) (delay : ℕ → ℕ) (s t : S)
      → k ≤ n
      → FailsThen fn p k s t
      → lib.run (suc n) p delay fn s ≡ (none, t)
  run-succeeds fn zero zero delay s t le e = laws.run-suc zero p delay fn s ∙ e
  run-succeeds fn (suc n) zero delay s t le e =
      laws.run-suc (suc n) p delay fn s ∙ ap (after_attempt (suc n) p _) e
  run-succeeds fn zero (suc k) delay s t le h = absurd (omega arith)
  run-succeeds fn (suc n) (suc k) delay s t le (e, u, failed, again, h) =
      laws.run-suc (suc n) p delay fn s
      ∙ ap (after_attempt (suc n) p _) failed
      ∙ rw again (run-succeeds fn n k (λ k. delay (suc k)) u t (omega arith) h)

  -- When at most three calls fail with errors that are to be retried and the next one succeeds, Do
  -- returns no error, in the state that the last call left.
  pub retry_do-succeeds :
      (fn : S → Outcome S) (k : ℕ) (s t : S)
      → k ≤ 3
      → FailsThen fn p k s t
      → retry_do lib fn p s ≡ (none, t)
  unfolding retry_do do_with_delays
  retry_do-succeeds fn k s t le h = run-succeeds fn 3 k _ s t le h

  -- A run that has made between one and `n` calls since the count was `c`, and that left what `r`
  -- says.
  abbrev IsCounted : ℕ → ℕ → Outcome S → Outcome (S × ℕ) → Type 0
  IsCounted n c (r, t) (r', (t', d)) = (r' ≡ r) × (t' ≡ t) × (c + 1 ≤ d) × (d ≤ c + n)

  after_attempt-IsCounted :
      (n c : ℕ) (again : S → Outcome S) (again' : S × ℕ → Outcome (S × ℕ)) (r : Outcome S)
      → ((u : S) → IsCounted n (suc c) (again u) (again' (u, suc c)))
      → IsCounted
          (suc n)
          c
          (after_attempt n p again r)
          (after_attempt n p again' (r.0, (r.1, suc c)))
  after_attempt-IsCounted zero c again again' r h = (refl, refl, omega arith, omega arith)
  after_attempt-IsCounted (suc n) c again again' (none, u) h =
      (refl, refl, omega arith, omega arith)
  after_attempt-IsCounted (suc n) c again again' (some e, u) h = elim (Bool-cases (p e)) [
    | inl retried ↦
        let (same, left, low, high) = h u in
        rw retried (same, left, omega (arith, low), omega (arith, high))
    | inr refused ↦ rw refused (refl, refl, omega arith, omega arith)
  ]

  run-IsCounted :
      (fn : S → Outcome S) (n : ℕ) (delay : ℕ → ℕ) (s : S) (c : ℕ)
      → IsCounted
          (suc n)
          c
          (lib.run (suc n) p delay fn s)
          (lib.run (suc n) p delay (counted fn) (s, c))
  run-IsCounted fn zero delay s c =
      rw (laws.run-suc zero p delay fn s)
        (rw (laws.run-suc zero p delay (counted fn) (s, c)) (refl, refl, omega arith, omega arith))
  run-IsCounted fn (suc n) delay s c = rw (laws.run-suc (suc n) p delay fn s) (
      rw (laws.run-suc (suc n) p delay (counted fn) (s, c)) (
        after_attempt-IsCounted (suc n) c _ _ (fn s)
          (λ u. run-IsCounted fn n (λ k. delay (suc k)) u (suc c))))

  -- Do makes at least one call and at most four, whatever fails, and counting the calls changes
  -- neither what it returns nor the state that it leaves.
  pub retry_do-counted :
      (fn : S → Outcome S) (s : S)
      → ((retry_do lib (counted fn) p (s, 0)).0 ≡ (retry_do lib fn p s).0)
        × ((retry_do lib (counted fn) p (s, 0)).1.0 ≡ (retry_do lib fn p s).1)
        × (1 ≤ (retry_do lib (counted fn) p (s, 0)).1.1)
        × ((retry_do lib (counted fn) p (s, 0)).1.1 ≤ 4)
  unfolding retry_do do_with_delays
  retry_do-counted fn s = run-IsCounted fn 3 _ s 0
