-- ===== src/Retry/Loop/Keeps.antt =====
-- What a call and a pause keep, the loop keeps.
use gdrive_turbo_copy.Prelude.{ℕ, zero, suc, ◌+◌, ◌≡◌, refl, Bool, true, false, if◌then◌else◌}
use gdrive_turbo_copy.Retry.Errors.{Exc}
use gdrive_turbo_copy.Retry.Loop.{
  Reply, reply, failed, RetryPolicy, Hooks, gives_up, pause, retry_from, execute_with_retry,
}

module _ {W A : Type 0} (hooks : Hooks W) (policy : RetryPolicy) (func : W → Reply A × W)
    (Q : W → Type 0) (called : (w : W) → Q w → Q (func w).1)
    (paused : (n : ℕ) (exc : Exc) (w : W) → Q w → Q (pause hooks policy n exc w)) where
  keeps-if : {B : Type 0} (b : Bool) (x y : B × W) → Q x.1 → Q y.1 → Q (if b then x else y).1
  keeps-if true x y p q = p
  keeps-if false x y p q = q

  keeps-step :
      (fuel n : ℕ) (w : W) (r : Reply A)
      → (func w).0 ≡ r
      → ((v : W) → Q v → Q (retry_from hooks policy func fuel (n + 1) v).1)
      → Q w
      → Q (retry_from hooks policy func (suc fuel) n w).1
  unfolding retry_from
  keeps-step fuel n w (reply a) e next q = rw (e, retry_from) (called w q)
  keeps-step fuel n w (failed x) e next q =
      rw (e, retry_from)
        (keeps-if (gives_up policy n x) _ _ (called w q)
          (next (pause hooks policy n x (func w).1) (paused n x (func w).1 (called w q))))

  retry_from-keeps : (fuel n : ℕ) (w : W) → Q w → Q (retry_from hooks policy func fuel n w).1
  unfolding retry_from
  retry_from-keeps zero n w q = q
  retry_from-keeps (suc fuel) n w q =
      keeps-step fuel n w (func w).0 refl (retry_from-keeps fuel (n + 1)) q

  pub execute_with_retry-keeps : (w : W) → Q w → Q (execute_with_retry hooks policy func w).1
  unfolding execute_with_retry
  execute_with_retry-keeps w q = retry_from-keeps (policy.max_attempts + 1) 1 w q
