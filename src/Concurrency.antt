-- ===== src/Concurrency.antt =====
-- `AdaptiveConcurrencyController` of src/gdrive_turbo_copy/concurrency.py: for each kind of operation
-- a limiter, which halves on throttling, creeps up on success, and blocks a worker at the limit.
pub mod Steps
use gdrive_turbo_copy.Prelude.{
  ℕ, suc, ◌+◌, ◌-◌, ◌/◌, Bool, true, false, ◌&&◌, Option, none, some, List, [], ◌∷◌, ltb, leb, max,
  if◌then◌else◌,
}

-- `OperationType`
pub data OperationType : Type 0 where
  list copy create_folder log_update metadata : OperationType

-- `_Limiter`
pub record Limiter : Type 0 where
  pub limit : ℕ
  pub min_limit : ℕ
  pub max_limit : ℕ
  pub in_flight : ℕ
  pub successes : ℕ
  pub increase_after : ℕ

-- The arguments of the controller that may be left out, and the others.
pub record Workers : Type 0 where
  pub copy_workers : ℕ
  pub list_workers : Option ℕ
  pub create_workers : Option ℕ
  pub log_workers : ℕ
  pub metadata_workers : Option ℕ
  pub increase_after : ℕ

abbrev pub starting : ℕ → ℕ → Limiter
starting limit increase_after = record {
  limit = limit;
  min_limit = 1;
  max_limit = limit;
  in_flight = 0;
  successes = 0;
  increase_after = increase_after;
}

abbrev pub given_or : Option ℕ → ℕ → ℕ
given_or none d = d
given_or (some n) d = n

abbrev pub Controller : Type 0
Controller = OperationType → Limiter

-- The constructor, on numbers of workers that are not negative. `copy_workers // 2 or 1`, with 1 as its floor, is `max 1 (copy_workers / 2)`.
unfoldable pub new_controller : Workers → Controller
new_controller w copy = starting (max 1 w.copy_workers) w.increase_after
new_controller w list =
    starting (max 1 (given_or w.list_workers (max 2 (max 1 w.copy_workers)))) w.increase_after
new_controller w create_folder =
    starting (max 1 (given_or w.create_workers (max 1 (max 1 w.copy_workers / 2)))) w.increase_after
new_controller w log_update = starting (max 1 w.log_workers) 20
new_controller w metadata =
    starting (max 1 (given_or w.metadata_workers (max 1 w.copy_workers))) w.increase_after

-- One look of `_acquire` under the lock: `none` is a wait.
unfoldable pub acquire : Limiter → Option Limiter
acquire l =
    if leb l.limit l.in_flight then none else some (record l { in_flight = l.in_flight + 1 })

unfoldable pub release : Limiter → Limiter
release l = record l { in_flight = l.in_flight - 1 }

unfoldable pub record_success : Limiter → Limiter
record_success l =
    if leb l.increase_after (l.successes + 1) && ltb l.limit l.max_limit
    then record l { limit = l.limit + 1; successes = 0 }
    else record l { successes = l.successes + 1 }

unfoldable pub record_throttle : Limiter → Limiter
record_throttle l = record l { limit = max l.min_limit (l.limit / 2); successes = 0 }
