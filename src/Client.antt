-- ===== src/Client.antt =====
-- `_run` and `_exec` of src/gdrive_turbo_copy/drive_client.py: how one request goes through the limiter of
-- its kind, the pacer and the retry loop; and the queries of the listings. The requests themselves are
-- a parameter.
pub mod Limiters
pub mod Queries
pub mod Held
pub mod Laws
use gdrive_turbo_copy.Prelude.{
  ℕ, ◌+◌, String, ◌<>◌, Bool, true, false, not, ◌||◌, Option, none, some, List, [], ◌∷◌, map, keep,
  truthy, number_eq, option_eq, ◌==◌, if◌then◌else◌,
}
use gdrive_turbo_copy.Prelude.Int.{Float}
use gdrive_turbo_copy.Prelude.Text.{join, codes, lower, same_codes}
use gdrive_turbo_copy.Retry.Loop.{
  Reply, reply, failed, RetryPolicy, RetryEvent, Hooks, execute_with_retry,
}
use gdrive_turbo_copy.Concurrency.{
  OperationType, list, copy, create_folder, log_update, metadata, Limiter, Controller,
}
use gdrive_turbo_copy.Concurrency
use gdrive_turbo_copy.Pacer.{Numbers, Clock, AdaptivePacer, Pacer, null_pacer, adaptive, one}
use gdrive_turbo_copy.Pacer
use Prim.Native.Char.{code}

-- `_escape`: a backslash before each backslash and each quote.
unfoldable pub escape : String → String
escape String.[] = ""
escape (String.◌∷◌ c s) =
    let rest = escape s in
    if code c == 92 || code c == 39 then "\\" <> String.◌∷◌ c rest else String.◌∷◌ c rest

abbrev pub excluding : String → List String → String
excluding query [] = query
excluding query (s ∷ excludes) =
    query
    <> " and ("
    <> join " and " (map (λ x. "not name contains '" <> escape x <> "'") (s ∷ excludes))
    <> ")"

unfoldable pub list_query : String → List String → String
unfolding escape
list_query folder_id exclude_substrings =
    excluding ("'" <> folder_id <> "' in parents and trashed = false")
      (keep truthy exclude_substrings)

unfoldable pub multi_query : List String → List String → String
unfolding escape
multi_query parent_ids exclude_substrings =
    excluding
      ("("
        <> join " or " (map (λ id. "'" <> escape id <> "' in parents") parent_ids)
        <> ") and trashed = false")
      (keep truthy exclude_substrings)

-- Whether two kinds of operation are the same.
abbrev pub same_kind : OperationType → OperationType → Bool
same_kind list list = true
same_kind copy copy = true
same_kind create_folder create_folder = true
same_kind log_update log_update = true
same_kind metadata metadata = true
same_kind _ _ = false

unfoldable pub update : OperationType → Limiter → Controller → Controller
update op l c o = if same_kind o op then l else c o

unfoldable pub is_throttle : RetryEvent → Bool
is_throttle event =
    event.status == some 429
    || same_codes (lower event.reason) (codes "ratelimitexceeded")
    || same_codes (lower event.reason) (codes "userratelimitexceeded")

-- The client, with the world of its clock and of Drive.
pub record Client (N W : Type 0) : Type 0 where
  pub controller : Option Controller
  pub pacer : Option (Pacer N)
  pub world : W

module _ (num : Numbers) {W : Type 0} (clock : Clock num.Number W) where
  abbrev pub State : Type 0
  State = Client num.Number W

  abbrev pub adjust : (Limiter → Limiter) → OperationType → Option Controller → Option Controller
  adjust f op none = none
  adjust f op (some c) = some (update op (f (c op)) c)

  abbrev pub at_controller : (Limiter → Limiter) → OperationType → State → State
  at_controller f op s = record s { controller = adjust f op s.controller }

  abbrev pub throttle_pacer :
      Option Float → Option (Pacer num.Number) → W → Option (Pacer num.Number) × W
  throttle_pacer retry_after none w = (none, w)
  throttle_pacer retry_after (some null_pacer) w = (some null_pacer, w)
  throttle_pacer retry_after (some (adaptive p)) w =
      let q = Pacer.record_throttle num clock retry_after p w in (some (adaptive q.0), q.1)

  -- The callback of `_exec`.
  unfoldable pub on_event : OperationType → RetryEvent → State → State
  on_event op event s =
      let t = at_controller Concurrency.record_throttle op s in
      let q = throttle_pacer event.retry_after t.pacer t.world in
      if is_throttle event then record t { pacer = q.0; world = q.1 } else s

  abbrev pub acquire_pacer :
      ℕ → Option (Pacer num.Number) → W → Option num.Number × Option (Pacer num.Number) × W
  acquire_pacer fuel none w = (some (Pacer.nought num), none, w)
  acquire_pacer fuel (some null_pacer) w = (some (Pacer.nought num), some null_pacer, w)
  acquire_pacer fuel (some (adaptive p)) w =
      let (slept, p', w') = Pacer.acquire num clock fuel (one num) p w in
      (slept, some (adaptive p'), w')

  -- The answer to one attempt; `none` stands for a wait that has not ended.
  abbrev pub Answer : Type 0 → Type 0
  Answer A = Reply (Option A)

  abbrev pub answered : {A : Type 0} → Reply A → Answer A
  answered (reply a) = reply (some a)
  answered (failed x) = failed x

  abbrev pub send :
      {A : Type 0}
      → (W → Reply A × W)
      → Option num.Number × Option (Pacer num.Number) × W
      → State
      → Answer A × State
  send request (none, p, w) s = (reply none, record s { pacer = p; world = w })
  send request (some slept, p, w) s =
      let (r, w') = request w in (answered r, record s { pacer = p; world = w' })

  -- `call`: every attempt is paced.
  unfoldable pub attempt : {A : Type 0} → ℕ → (W → Reply A × W) → State → Answer A × State
  attempt fuel request s = send request (acquire_pacer fuel s.pacer s.world) s

  abbrev pub lift_hooks : (Hooks W) → OperationType → Hooks State
  lift_hooks hooks op = record {
    uniform = λ x s. let (y, w) = hooks.uniform x s.world in (y, record s { world = w });
    sleep = λ x s. record s { world = hooks.sleep x s.world };
    on_event = on_event op;
  }

  abbrev pub pacer_success : Option (Pacer num.Number) → Option (Pacer num.Number)
  pacer_success (some (adaptive p)) = some (adaptive (Pacer.record_success num p))
  pacer_success o = o

  abbrev pub note_success :
      {A : Type 0} → OperationType → Option (Answer A) × State → Option (Answer A) × State
  note_success op (some (reply (some a)), s) =
      let t = at_controller Concurrency.record_success op s in
      (some (reply (some a)), record t { pacer = pacer_success t.pacer })
  note_success op (r, s) = (r, s)

  unfoldable pub exec :
      {A : Type 0}
      → Hooks W
      → RetryPolicy
      → ℕ
      → OperationType
      → (W → Reply A × W)
      → State
      → Option (Answer A) × State
  exec hooks policy fuel op request s =
      note_success op (execute_with_retry (lift_hooks hooks op) policy (attempt fuel request) s)

  -- Whether the call is over. It is not where it still waits for the pacer.
  abbrev pub has_ended : {A : Type 0} → Option (Answer A) → Bool
  has_ended (some (reply (some a))) = true
  has_ended (some (reply none)) = false
  has_ended (some (failed x)) = true
  has_ended none = false

  -- The slot is left when the call is over, whatever it comes to. `none` at the limit stands for the
  -- wait there, and a call that waits inside keeps its place.
  abbrev pub in_slot :
      {A : Type 0}
      → OperationType
      → (State → Option (Answer A) × State)
      → Controller
      → Option Limiter
      → State
      → Option (Answer A) × State
  in_slot op body c none s = (none, s)
  in_slot op body c (some l) s =
      let (r, s') = body (record s { controller = some (update op l c) }) in
      (r, if has_ended r then at_controller Concurrency.release op s' else s')

  abbrev pub with_slot :
      {A : Type 0}
      → OperationType
      → (State → Option (Answer A) × State)
      → Option Controller
      → State
      → Option (Answer A) × State
  with_slot op body none s = body s
  with_slot op body (some c) s = in_slot op body c (Concurrency.acquire (c op)) s

  unfoldable pub run :
      {A : Type 0}
      → Hooks W
      → RetryPolicy
      → ℕ
      → OperationType
      → (W → Reply A × W)
      → State
      → Option (Answer A) × State
  run hooks policy fuel op request s =
      with_slot op (exec hooks policy fuel op request) s.controller s
