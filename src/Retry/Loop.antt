-- ===== src/Retry/Loop.antt =====
-- `execute_with_retry`: calls a function of the world until it returns, fails for good, or has been
-- tried often enough. The log line of a retry is left out.
pub mod Laws
pub mod Keeps
use gdrive_turbo_copy.Prelude.{
  ℕ, zero, suc, ◌+◌, String, Bool, true, false, not, ◌||◌, Option, none, some, leb, or_text,
  string_eq, if◌then◌else◌,
}
use gdrive_turbo_copy.Prelude.Int.{Float}
use gdrive_turbo_copy.Retry.Errors.{
  Exc, ErrorClass, transient, fatal_quota, fatal_permission, fatal_other, classify_error,
  parse_http_error, parse_retry_after,
}
use gdrive_turbo_copy.Retry.Backoff.{full_jitter_delay}

-- What a call comes back with.
pub data Reply (A : Type 0) : Type 0 where
  reply : A → Reply A
  failed : Exc → Reply A

pub record RetryPolicy : Type 0 where
  pub max_attempts : ℕ
  pub base_delay : Float
  pub max_delay : Float

pub record RetryEvent : Type 0 where
  pub attempt : ℕ
  pub max_attempts : ℕ
  pub error_class : ErrorClass
  pub reason : String
  pub status : Option ℕ
  pub delay : Float
  pub message : String
  pub retry_after : Option Float

abbrev pub is_transient : ErrorClass → Bool
is_transient transient = true
is_transient _ = false

-- `ErrorClass.value`
abbrev pub class_value : ErrorClass → String
class_value transient = "transient"
class_value fatal_quota = "fatal_quota"
class_value fatal_permission = "fatal_permission"
class_value fatal_other = "fatal_other"

-- `text[:n]`
unfoldable pub prefix : ℕ → String → String
prefix zero s = ""
prefix (suc n) String.[] = ""
prefix (suc n) (String.◌∷◌ c s) = String.◌∷◌ c (prefix n s)

-- What the loop is handed: `rng.uniform`, `sleep`, and the callback `on_event`.
pub record Hooks (W : Type 0) : Type 0 where
  pub uniform : Float → W → Float × W
  pub sleep : Float → W → W
  pub on_event : RetryEvent → W → W

abbrev pub gives_up : RetryPolicy → ℕ → Exc → Bool
gives_up policy attempt exc =
    not (is_transient (classify_error exc)) || leb policy.max_attempts attempt

module _ {W : Type 0} (hooks : Hooks W) (policy : RetryPolicy) where
  -- The delay: the server's, else the jittered one.
  unfoldable pub delay_of : ℕ → Exc → W → Float × W
  delay_of attempt exc w = elim (parse_retry_after exc) [
    | none ↦ full_jitter_delay hooks.uniform policy.base_delay policy.max_delay attempt w
    | some after ↦ (after, w)
  ]

  unfoldable pub event_of : ℕ → Exc → Float → RetryEvent
  event_of attempt exc delay =
      let (reason, message, status) = parse_http_error exc in
      record {
        attempt = attempt;
        max_attempts = policy.max_attempts;
        error_class = classify_error exc;
        reason = or_text reason (class_value (classify_error exc));
        status = status;
        delay = delay;
        message = prefix 200 message;
        retry_after = parse_retry_after exc;
      }

  -- What happens between two attempts.
  unfoldable pub pause : ℕ → Exc → W → W
  unfolding delay_of event_of
  pause attempt exc w =
      let (delay, w') = delay_of attempt exc w in
      hooks.sleep delay (hooks.on_event (event_of attempt exc delay) w')

module _ {W A : Type 0} (hooks : Hooks W) (policy : RetryPolicy) (func : W → Reply A × W) where
  -- The loop, before the attempt with the number `attempt`. `none` stands for a loop that has not
  -- ended when the fuel is used up.
  unfoldable pub retry_from : ℕ → ℕ → W → Option (Reply A) × W
  retry_from zero attempt w = (none, w)
  retry_from (suc fuel) attempt w =
      let (r, w') = func w in
      elim r [
        | reply a ↦ (some (reply a), w')
        | failed exc ↦
            let again = retry_from fuel (attempt + 1) (pause hooks policy attempt exc w') in
            if gives_up policy attempt exc then (some (failed exc), w') else again
      ]

  unfoldable pub execute_with_retry : W → Option (Reply A) × W
  unfolding retry_from
  execute_with_retry w = retry_from (policy.max_attempts + 1) 1 w
