-- ===== src/Copier/Engine.antt =====
-- The state of a `Copier`, with that of its `ResumeStore`, and its methods as actions that return or
-- raise. What was changed before a raise stays changed.
use gdrive_turbo_copy.Prelude.{ℕ, String, Bool, Option, List, if◌then◌else◌}
use gdrive_turbo_copy.Prelude.Dict.{Dict}
use gdrive_turbo_copy.Models.Records.{CopyResult, ResumeState}
use gdrive_turbo_copy.Retry.Errors.{Exc}
use gdrive_turbo_copy.Retry.Loop.{Reply, reply, failed}

-- `_FolderNode`
pub record FolderNode : Type 0 where
  pub listing_ok : Bool
  pub eligible : Bool
  pub file_eff_ids : List String
  pub subfolder_ids : List String

pub record Engine (W : Type 0) : Type 0 where
  pub stop : Bool
  pub resume_state : ResumeState
  pub result : CopyResult
  pub dirty : ℕ
  pub copied_session : ℕ
  pub run_bytes : ℕ
  pub consec_rate_fail : ℕ
  pub tree : Dict FolderNode
  pub listing_error_folders : List String
  pub own_log_file_id : Option String
  pub own_log_name : Option String
  pub world : W

-- How a method ends. `out_of_fuel` stands for a loop that has not ended.
pub data Outcome (A : Type 0) : Type 0 where
  done : A → Outcome A
  raised : Exc → Outcome A
  out_of_fuel : Outcome A

abbrev pub Action : Type 0 → Type 0 → Type 0
Action W A = Engine W → Outcome A × Engine W

module _ {W A : Type 0} where
  abbrev pub pure : A → Action W A
  pure a e = (done a, e)

  abbrev pub raise : Exc → Action W A
  raise x e = (raised x, e)

module _ {W : Type 0} where
  abbrev pub modify : (Engine W → Engine W) → Action W (Unit {0})
  modify f e = (done tt, f e)

  abbrev pub get : Action W (Engine W)
  get e = (done e, e)

-- What follows a method, on how it ended.
abbrev pub continue :
    {W A B : Type 0} → Outcome A × Engine W → (A → Action W B) → Outcome B × Engine W
continue (done a, e) f = f a e
continue (raised x, e) f = (raised x, e)
continue (out_of_fuel, e) f = (out_of_fuel, e)

infixl 5 ◌>>=◌ ◌>>◌
abbrev pub ◌>>=◌ : {W A B : Type 0} → Action W A → (A → Action W B) → Action W B
◌>>=◌ m f e = continue (m e) f

abbrev pub ◌>>◌ : {W B : Type 0} → Action W (Unit {0}) → Action W B → Action W B
m >> k = m >>= λ _. k

abbrev pub when : {W : Type 0} → Bool → Action W (Unit {0}) → Action W (Unit {0})
when b m = if b then m else pure tt

-- A call of the client: its answer, be it a failure, is handed on.
abbrev pub call : {W A : Type 0} → (W → Reply A × W) → Action W (Reply A)
call f e = let (r, w) = f e.world in (done r, record e { world = w })

-- A method under `try`: what it raises becomes an answer.
abbrev pub settle : {W A : Type 0} → Outcome A × Engine W → Outcome (Reply A) × Engine W
settle (done a, e) = (done (reply a), e)
settle (raised x, e) = (done (failed x), e)
settle (out_of_fuel, e) = (out_of_fuel, e)

abbrev pub attempt : {W A : Type 0} → Action W A → Action W (Reply A)
attempt m e = settle (m e)
