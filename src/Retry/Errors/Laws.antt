-- ===== src/Retry/Errors/Laws.antt =====
-- The classifier of the retry loop against the test of the circuit breaker.
use gdrive_turbo_copy.Prelude.{
  ℕ, ◌≡◌, ◌⊎◌, Bool, true, ◌||◌, Option, none, some, List, [], ◌∷◌, arith,
}
use gdrive_turbo_copy.Prelude.Text.{lower}
use gdrive_turbo_copy.Retry.Errors.{
  transient, fatal_quota, Exc, text_of, parse_http_error, quota_signal, classify, classify_error,
  is_rate_limit, one_of, rate_limit_reasons, status_in, retryable_status,
}

-- The breaker's only status is one of those that are retried.
status_429_retryable :
    (status : Option ℕ)
    → status_in (429 ∷ []) status ≡ true
    → status_in retryable_status status ≡ true
status_429_retryable none h = h
status_429_retryable (some s) h = ground arith

classify_rate_limit :
    (quota : Bool) (reason : List ℕ) (status : Option ℕ)
    → (status_in (429 ∷ []) status || one_of rate_limit_reasons reason) ≡ true
    → (classify quota reason status ≡ transient) ⊎ (classify quota reason status ≡ fatal_quota)
unfolding classify
classify_rate_limit quota reason status h = ground (arith, status_429_retryable status)

-- A failure that the circuit breaker counts as a rate limit is one that `classify_error` calls
-- transient, or else a fatal quota.
pub is_rate_limit-classify_error :
    (exc : Exc)
    → let (reason, message, status) = parse_http_error exc in
      is_rate_limit status reason ≡ true
      → (classify_error exc ≡ transient) ⊎ (classify_error exc ≡ fatal_quota)
unfolding classify_error is_rate_limit
is_rate_limit-classify_error exc h =
    let (reason, message, status) = parse_http_error exc in
    classify_rate_limit (quota_signal reason message (text_of exc)) (lower reason) status h
