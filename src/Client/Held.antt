-- ===== src/Client/Held.antt =====
-- What the sending of a request, with its retries, leaves of the controller.
use gdrive_turbo_copy.Prelude.{ℕ, Bool, true, false, Option, none, some, if◌then◌else◌}
use gdrive_turbo_copy.Prelude.Int.{Float}
use gdrive_turbo_copy.Retry.Errors.{Exc, parse_retry_after}
use gdrive_turbo_copy.Retry.Backoff.{full_jitter_delay}
use gdrive_turbo_copy.Retry.Loop.{
  Reply, reply, failed, RetryPolicy, RetryEvent, Hooks, delay_of, pause, execute_with_retry,
}
use gdrive_turbo_copy.Retry.Loop.Keeps.{execute_with_retry-keeps}
use gdrive_turbo_copy.Concurrency.{
  OperationType, Limiter, Controller, record_success, record_throttle,
}
use gdrive_turbo_copy.Pacer.{Numbers, Clock, Pacer}
use gdrive_turbo_copy.Client.{
  is_throttle, Client, adjust, on_event, acquire_pacer, send, attempt, lift_hooks, note_success,
  exec, Answer,
}
use gdrive_turbo_copy.Client.Limiters.{
  Alike, Alike-trans, record_throttle-Alike, record_success-Alike, update-Alike, AllAlike,
  no_controller, all_alike,
}

module _ (num : Numbers) {W : Type 0} (clock : Clock num.Number W) (op : OperationType) where
  abbrev State : Type 0
  State = Client num.Number W

  adjust-AllAlike :
      (f : Limiter → Limiter) (k : (l : Limiter) → Alike l (f l)) {s t : Option Controller}
      → AllAlike s t
      → AllAlike s (adjust num clock f op t)
  adjust-AllAlike f k no_controller = no_controller
  adjust-AllAlike f k (all_alike {c} {c'} h) =
      all_alike (λ o. Alike-trans (h o) (update-Alike op (f (c' op)) c' (k (c' op)) o))

  module _ (start : Option Controller) where
    -- The controller is as it was at the start.
    abbrev pub Held : State → Type 0
    Held s = AllAlike start s.controller

    Held-if : (b : Bool) (s t : State) → Held s → Held t → Held (if b then s else t)
    Held-if true s t h k = h
    Held-if false s t h k = k

    on_event-Held : (event : RetryEvent) (s : State) → Held s → Held (on_event num clock op event s)
    unfolding on_event
    on_event-Held event s h =
        Held-if (is_throttle event) _ s (adjust-AllAlike record_throttle record_throttle-Alike h) h

    send-Held :
        {A : Type 0} (request : W → Reply A × W)
        (x : Option num.Number × Option (Pacer num.Number) × W) (s : State)
        → Held s
        → Held (send num clock request x s).1
    send-Held request (none, p, w) s h = h
    send-Held request (some slept, p, w) s h = h

    attempt-Held :
        {A : Type 0} (fuel : ℕ) (request : W → Reply A × W) (s : State)
        → Held s
        → Held (attempt num clock fuel request s).1
    unfolding attempt
    attempt-Held fuel request s h =
        send-Held request (acquire_pacer num clock fuel s.pacer s.world) s h

    note_success-Held :
        {A : Type 0} (x : Option (Answer num clock A) × State)
        → Held x.1
        → Held (note_success num clock op x).1
    note_success-Held (some (reply (some a)), s) h =
        adjust-AllAlike record_success record_success-Alike h
    note_success-Held (some (reply none), s) h = h
    note_success-Held (some (failed x), s) h = h
    note_success-Held (none, s) h = h

    module _ (hooks : Hooks W) (policy : RetryPolicy) (fuel : ℕ) where
      chosen-Held :
          (o : Option Float) (n : ℕ) (s : State)
          → Held s
          → Held
              (elim o as (λ x. Float × State) [
                | none ↦
                    full_jitter_delay
                      (lift_hooks num clock hooks op).uniform
                      policy.base_delay
                      policy.max_delay
                      n
                      s
                | some after ↦ (after, s)
              ]).1
      unfolding full_jitter_delay
      chosen-Held none n s h = h
      chosen-Held (some after) n s h = h

      delay_of-Held :
          (n : ℕ) (exc : Exc) (s : State)
          → Held s
          → Held (delay_of (lift_hooks num clock hooks op) policy n exc s).1
      unfolding delay_of
      delay_of-Held n exc s h = chosen-Held (parse_retry_after exc) n s h

      pause-Held :
          (n : ℕ) (exc : Exc) (s : State)
          → Held s
          → Held (pause (lift_hooks num clock hooks op) policy n exc s)
      unfolding pause
      pause-Held n exc s h = on_event-Held _ _ (delay_of-Held n exc s h)

      pub exec-Held :
          {A : Type 0} (request : W → Reply A × W) (s : State)
          → Held s
          → Held (exec num clock hooks policy fuel op request s).1
      unfolding exec
      exec-Held {A} request s h =
          note_success-Held {A = A}
            (execute_with_retry (lift_hooks num clock hooks op) policy
              (attempt num clock fuel request) s)
            (execute_with_retry-keeps (lift_hooks num clock hooks op) policy
              (attempt num clock fuel request) Held (attempt-Held fuel request) pause-Held s h)
