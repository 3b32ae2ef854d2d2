-- ===== src/Copier/Moves.antt =====
-- What a part of a run may do to the books: a sequence of moves. One rule for each way to build an
-- action says that it makes such a sequence, whether it returns or raises.
pub mod Calls
pub mod Folders
pub mod Children
pub mod Files
pub mod Batches
pub mod Levels
pub mod Store
pub mod Tidy
pub mod Laws
use gdrive_turbo_copy.Prelude.{
  ◌+◌, ◌≡◌, refl, sym, subst, String, Bool, true, false, Option, some, List, if◌then◌else◌,
}
use gdrive_turbo_copy.Models.DriveFile.{DriveFile}
use gdrive_turbo_copy.Models.Config.{CopyConfig}
use gdrive_turbo_copy.Retry.Errors.{Exc}
use gdrive_turbo_copy.Retry.Loop.{Reply}
use gdrive_turbo_copy.Copier.Drive.{Drive}
use gdrive_turbo_copy.Copier.Engine.{
  Engine, Outcome, done, raised, out_of_fuel, Action, pure, raise, modify, call, continue, ◌>>=◌,
  ◌>>◌,
}
use gdrive_turbo_copy.Copier.Book.Frame.{Books, books}
use gdrive_turbo_copy.Copier.Files.Effect.Step.{CopyStep, Site, End}

module _ (drive : Drive) (config : CopyConfig) where
  -- One move: a failure is entered, the run is stopped with a reason, or ends with
  -- one, the log learns or forgets
  -- which files are copied, or a file is handled by one step, while the run is not stopped.
  pub data Move (b b' : Books) : Type 0 where
    fails : b' ≡ record b { failed = b.failed + 1 } → Move b b'
    halts : (reason : String) → b' ≡ record b { stop = true; stop_reason = some reason } → Move b b'
    explains : (reason : String) → b' ≡ record b { stop_reason = some reason } → Move b b'
    learns : (ids : List String) → b' ≡ record b { copied_ids = ids } → Move b b'
    handles :
        (src : DriveFile) (shortcut_id : Option String) (site : Site drive) (end : End)
        → b.stop ≡ false
        → CopyStep drive config src shortcut_id site b b' end
        → Move b b'

  pub data Moves : Books → Books → Type 0 where
    rests : {b : Books} → Moves b b
    goes_on : {b b' b'' : Books} → Moves b b' → Move b' b'' → Moves b b''

  pub Moves-trans : {a b c : Books} → Moves a b → Moves b c → Moves a c
  Moves-trans m rests = m
  Moves-trans m (goes_on n s) = goes_on (Moves-trans m n) s

  pub Moves-one : {b b' : Books} → Move b b' → Moves b b'
  Moves-one s = goes_on rests s

  pub Moves-same : (b b' : Books) → b' ≡ b → Moves b b'
  Moves-same b b' e = subst (λ x. Moves b x) (sym e) rests

  -- Whatever state the action starts in, and however it ends, it has made moves.
  pub record Moving {A : Type 0} (m : Action drive.World A) : Type 0 where
    pub at : (e : Engine drive.World) → Moves (books e) (books (m e).1)

  module _ {A : Type 0} where
    pub Moving-pure : (a : A) → Moving (pure {A = A} a)
    Moving-pure a = record { at = λ e. rests }

    pub Moving-raise : (x : Exc) → Moving (raise {A = A} x)
    Moving-raise x = record { at = λ e. rests }

    pub Moving-call : (f : drive.World → Reply A × drive.World) → Moving (call f)
    Moving-call f = record { at = λ e. rests }

    pub Moving-if :
        (b : Bool) (m n : Action drive.World A) → Moving m → Moving n → Moving (if b then m else n)
    Moving-if true m n km kn = km
    Moving-if false m n km kn = kn

    pub Moves-if :
        (x : Books) (b : Bool) (o o' : Outcome A × Engine drive.World)
        → Moves x (books o.1)
        → Moves x (books o'.1)
        → Moves x (books (if b then o else o').1)
    Moves-if x true o o' m m' = m
    Moves-if x false o o' m m' = m'

    -- A test of the state itself.
    pub Moving-test :
        (b : Bool) (e : Engine drive.World) (now : A) (m : Action drive.World A)
        → Moving m
        → Moves (books e) (books (if b then (done now, e) else m e).1)
    Moving-test true e now m k = rests
    Moving-test false e now m k = k.at e

  pub Moving-modify :
      (f : Engine drive.World → Engine drive.World)
      → ((e : Engine drive.World) → Moves (books e) (books (f e)))
      → Moving (modify f)
  Moving-modify f h = record { at = h }

  module _ {A B : Type 0} where
    pub Moving-continue :
        (b : Books) (out : Outcome A × Engine drive.World) (f : A → Action drive.World B)
        → Moves b (books out.1)
        → ((a : A) → Moving (f a))
        → Moves b (books (continue out f).1)
    Moving-continue b (done a, e) f m k = Moves-trans m ((k a).at e)
    Moving-continue b (raised x, e) f m k = m
    Moving-continue b (out_of_fuel, e) f m k = m

    pub Moving-bind :
        (m : Action drive.World A) (f : A → Action drive.World B)
        → Moving m
        → ((a : A) → Moving (f a))
        → Moving (m >>= f)
    Moving-bind m f km kf = record { at = λ e. Moving-continue (books e) (m e) f (km.at e) kf }

  pub Moving-then :
      {B : Type 0} (m : Action drive.World (Unit {0})) (n : Action drive.World B)
      → Moving m
      → Moving n
      → Moving (m >> n)
  Moving-then m n km kn = Moving-bind m (λ _. n) km (λ _. kn)
