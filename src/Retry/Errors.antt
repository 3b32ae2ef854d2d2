-- ===== src/Retry/Errors.antt =====
-- `parse_http_error`, `classify_error` and `parse_retry_after`.
pub mod Laws
use gdrive_turbo_copy.Prelude.{
  ℕ, String, ◌<>◌, Bool, true, false, ◌||◌, Option, none, some, List, [], ◌∷◌, any, eqb, or_else,
  string_eq, if◌then◌else◌,
}
use gdrive_turbo_copy.Prelude.Int.{ℤ, Float, of_ℤ, max_float, zero_float}
use gdrive_turbo_copy.Prelude.Text.{codes, lower, same_codes, is_infix}

pub data ErrorClass : Type 0 where
  transient fatal_quota fatal_permission fatal_other : ErrorClass

-- One entry of `error.errors` in the JSON body of a reply.
pub record ErrorItem : Type 0 where
  pub reason : Option String
  pub message : Option String

-- The object under "error" in the body. A body without one has no entry and neither text.
pub record ErrorBody : Type 0 where
  pub errors : List ErrorItem
  pub message : Option String
  pub status : Option String

-- What `json.loads(error.content)` and the reads behind it meet.
pub data Content : Type 0 where
  missing unreadable : Content
  body : ErrorBody → Content

-- A "retry-after" header that is not empty: an integer of seconds, a date that lies so many seconds
-- ahead of the clock, or neither.
pub data RetryAfter : Type 0 where
  seconds : ℤ → RetryAfter
  date : Float → RetryAfter
  garbled : RetryAfter

-- An exception of the HTTP client: `str(error)`, `error.resp` (its status, where `int` reads it, and
-- its header), and `error.content`.
pub record HttpError : Type 0 where
  pub text : String
  pub status : Option ℕ
  pub retry_after : Option RetryAfter
  pub content : Content

-- The exceptions that the program raises or meets.
pub data Exc : Type 0 where
  quota_stopped : Option String → Exc
  runtime_error : String → Exc
  value_error : String → Exc
  http : HttpError → Exc

-- `str(error)`
unfoldable pub text_of : Exc → String
text_of (quota_stopped none) = "None"
text_of (quota_stopped (some reason)) = reason
text_of (runtime_error message) = message
text_of (value_error message) = message
text_of (http e) = e.text

-- `(reason, message, status)`
unfoldable pub parse_content : String → Content → String × String
parse_content message Content.missing = ("", message)
parse_content message Content.unreadable = ("", message)
parse_content message (body b) = elim (b.errors) [
  | [] ↦ (or_else b.status "", or_else b.message message)
  | item ∷ _ ↦ (or_else item.reason "", or_else item.message message)
]

unfoldable pub parse_http_error : Exc → String × String × Option ℕ
unfolding parse_content
parse_http_error (http e) =
    let (reason, message) = parse_content e.text e.content in (reason, message, e.status)
parse_http_error e = ("", text_of e, none)

-- `text in names`, both in lower case.
abbrev pub one_of : List String → List ℕ → Bool
one_of names text = any (λ name. same_codes text (codes name)) names

abbrev pub fatal_quota_reasons : List String
fatal_quota_reasons =
    "storagequotaexceeded" ∷ "dailylimitexceeded" ∷ "teamdrivefilelimitexceeded"
    ∷ "numchildreninnonrootlimitexceeded" ∷ "activeitemcreationlimitexceeded" ∷ []

abbrev pub fatal_quota_substrings : List String
fatal_quota_substrings =
    "storagequotaexceeded" ∷ "dailylimitexceeded" ∷ "upload limit" ∷ "creation limit"
    ∷ "the number of children" ∷ []

abbrev pub rate_limit_reasons : List String
rate_limit_reasons = "ratelimitexceeded" ∷ "userratelimitexceeded" ∷ []

abbrev pub fatal_permission_reasons : List String
fatal_permission_reasons = "insufficientfilepermissions" ∷ []

abbrev pub fatal_skip_reasons : List String
fatal_skip_reasons =
    "cannotcopyfile" ∷ "filenotexportable" ∷ "downloadrestrictedforrevision"
    ∷ "cannotmodifyinheritedteamdrivepermission" ∷ []

abbrev pub status_in : List ℕ → Option ℕ → Bool
status_in codes none = false
status_in codes (some s) = any (λ c. eqb s c) codes

abbrev pub retryable_status : List ℕ
retryable_status = 429 ∷ 500 ∷ 502 ∷ 503 ∷ 504 ∷ []

abbrev pub permission_status : List ℕ
permission_status = 401 ∷ 403 ∷ 404 ∷ []

-- The tests of `classify_error` over the parsed error, in order.
unfoldable pub quota_signal : String → String → String → Bool
quota_signal reason message text =
    one_of fatal_quota_reasons (lower reason)
    || any (λ s. is_infix (codes s) (lower (message <> " " <> text))) fatal_quota_substrings

unfoldable pub classify : Bool → List ℕ → Option ℕ → ErrorClass
classify quota reason status =
    if quota
    then fatal_quota
    else if one_of rate_limit_reasons reason
    then transient
    else if status_in retryable_status status
    then transient
    else if one_of fatal_skip_reasons reason
    then fatal_permission
    else if one_of fatal_permission_reasons reason || status_in permission_status status
    then fatal_permission
    else fatal_other

unfoldable pub classify_error : Exc → ErrorClass
unfolding classify
classify_error e =
    let (reason, message, status) = parse_http_error e in
    classify (quota_signal reason message (text_of e)) (lower reason) status

-- The test that `_handle_copy_exception` and `on_event` of the client share.
unfoldable pub is_rate_limit : Option ℕ → String → Bool
is_rate_limit status reason =
    status_in (429 ∷ []) status || one_of rate_limit_reasons (lower reason)

-- `parse_retry_after`: the seconds to wait, if the reply names them.
unfoldable pub parse_retry_after : Exc → Option Float
parse_retry_after (http e) = elim (e.retry_after) [
  | none ↦ none
  | some after ↦ elim after [
    | seconds n ↦ some (max_float zero_float (of_ℤ n))
    | date ahead ↦ some (max_float zero_float ahead)
    | garbled ↦ none
  ]
]
parse_retry_after e = none
