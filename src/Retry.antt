-- ===== src/Retry.antt =====
-- pkg/retry/retry.go: bounded retries by the package retry-go, which is a parameter.
pub mod Loop
use go_yandex_practicum_metr.Prelude.{
  ℕ, zero, suc, Bool, Option, none, some, List, [], ◌∷◌, length, ◌≡◌, if◌then◌else◌,
}
use go_yandex_practicum_metr.GoError.{GoError}

-- What a call leaves: its error, and the state after it.
abbrev pub Outcome : Type 0 → Type 0
Outcome S = Option GoError × S

-- `run attempts retry_if delay fn s` is retrygo.Do with the options Attempts, RetryIf, DelayType and
-- LastErrorOnly.
pub record RetryLib : Type 1 where
  pub run : {S : Type 0} → ℕ → (GoError → Bool) → (ℕ → ℕ) → (S → Outcome S) → S → Outcome S

-- What follows an attempt that left `r`, where `n` more attempts are allowed.
abbrev pub after_attempt :
    {S : Type 0} → ℕ → (GoError → Bool) → (S → Outcome S) → Outcome S → Outcome S
after_attempt zero retry_if again r = r
after_attempt (suc n) retry_if again (none, s) = (none, s)
after_attempt (suc n) retry_if again (some e, s) = if retry_if e then again s else (some e, s)

-- What retry-go documents: it stops at a call without an error, at an error that RetryIf refuses,
-- and after the last attempt, of which it then returns the error.
pub record RetryLaws (lib : RetryLib) : Type 1 where
  pub run-suc :
      {S : Type 0}
      → (n : ℕ) (retry_if : GoError → Bool) (delay : ℕ → ℕ) (fn : S → Outcome S) (s : S)
      → lib.run (suc n) retry_if delay fn s
        ≡ after_attempt n retry_if (lib.run n retry_if (λ k. delay (suc k)) fn) (fn s)

-- the waits in seconds
abbrev pub delays : List ℕ
delays = 1 ∷ 3 ∷ 5 ∷ []

-- the function behind DelayType; with no intervals there is one attempt, and it is not asked
unfoldable pub delay_type : List ℕ → ℕ → ℕ
delay_type [] n = 0
delay_type (i ∷ []) n = i
delay_type (i ∷ j ∷ ivs) zero = i
delay_type (i ∷ j ∷ ivs) (suc n) = delay_type (j ∷ ivs) n

module _ (lib : RetryLib) {S : Type 0} where
  -- DoWithDelays
  unfoldable pub do_with_delays : (S → Outcome S) → (GoError → Bool) → List ℕ → S → Outcome S
  do_with_delays fn is_retriable ivs = lib.run (suc (length ivs)) is_retriable (delay_type ivs) fn

  -- Do
  unfoldable pub retry_do : (S → Outcome S) → (GoError → Bool) → S → Outcome S
  retry_do fn is_retriable = do_with_delays fn is_retriable delays
