-- ===== src/GoError.antt =====
-- Go `error` values: the sentinels of internal/service/errors.go, errors of the standard library
-- and of third-party packages as their text, and `fmt.Errorf` with `%w`.
use go_yandex_practicum_metr.Prelude.{Bool, true, false, String, ◌≡◌, refl, ◌⊎◌, inl, inr}

-- internal/service/errors.go
pub data Sentinel : Type 0 where
  metric_not_found unknown_type metric_name_empty value_required delta_required : Sentinel

pub data GoError : Type 0 where
  sentinel : Sentinel → GoError
  text : String → GoError
  wrap : String → GoError → GoError
  -- a pgconn.PgError, with its Code
  pg_error : String → GoError
  -- a url.Error, with its Timeout and its Temporary
  url_error : Bool → Bool → GoError

abbrev pub eq_sentinel : Sentinel → Sentinel → Bool
eq_sentinel metric_not_found metric_not_found = true
eq_sentinel unknown_type unknown_type = true
eq_sentinel metric_name_empty metric_name_empty = true
eq_sentinel value_required value_required = true
eq_sentinel delta_required delta_required = true
eq_sentinel _ _ = false

-- `errors.Is(err, target)` for a sentinel target: the chain of wrapped errors is walked.
unfoldable pub is_error : GoError → Sentinel → Bool
is_error (sentinel s) t = eq_sentinel s t
is_error (text m) t = false
is_error (wrap m e) t = is_error e t
is_error (pg_error c) t = false
is_error (url_error timeout temporary) t = false

-- A value or an error, for functions that return `(T, error)`.
pub data Result {ℓ} (A : Type ℓ) : Type ℓ where
  ok : A → Result A
  err : GoError → Result A

pub Result-cases {ℓ} :
    {A : Type ℓ} (r : Result A) → ((e : GoError) × (r ≡ err e)) ⊎ ((a : A) × (r ≡ ok a))
Result-cases (ok a) = inr (a, refl)
Result-cases (err e) = inl (e, refl)
