-- ===== src/Retry/Loop/Laws.antt =====
-- The loop against a relation that says what a run of attempts may do.
use gdrive_turbo_copy.Prelude.{
  ℕ, zero, suc, ◌+◌, ◌-◌, ◌≤◌, ◌<◌, ◌≡◌, refl, subst, true, false, Option, none, some, arith, max,
  Bool-cases, inl, inr,
}
use gdrive_turbo_copy.Retry.Errors.{Exc}
use gdrive_turbo_copy.Retry.Loop.{
  Reply, reply, failed, RetryPolicy, Hooks, gives_up, pause, retry_from, execute_with_retry,
}

module _ {W A : Type 0} (hooks : Hooks W) (policy : RetryPolicy) (func : W → Reply A × W) where
  -- From attempt `n` in world `w`, after `k` calls, the answer `r` is given in world `w'`. A call
  -- that returns ends it; so does a failure that is not transient, or that is the last allowed one;
  -- any other failure is followed by one pause and by the next attempt.
  pub data Tries : ℕ → ℕ → W → Reply A → W → Type 0 where
    returns : {n : ℕ} {w w' : W} {a : A} → func w ≡ (reply a, w') → Tries n 1 w (reply a) w'
    raises :
        {n : ℕ} {w w' : W} {e : Exc}
        → func w ≡ (failed e, w')
        → gives_up policy n e ≡ true
        → Tries n 1 w (failed e) w'
    again :
        {n k : ℕ} {w w' w'' : W} {e : Exc} {r : Reply A}
        → func w ≡ (failed e, w')
        → gives_up policy n e ≡ false
        → Tries (n + 1) k (pause hooks policy n e w') r w''
        → Tries n (suc k) w r w''

  -- A run that has ended, with its calls counted.
  abbrev pub Ended : ℕ → ℕ → W → Option (Reply A) × W → Type 0
  Ended n bound w (none, w') = ⊥
  Ended n bound w (some r, w') = (k : ℕ) × Tries n k w r w' × (k ≤ bound)

  Ended-again :
      (n bound : ℕ) (w w' : W) (e : Exc) (out : Option (Reply A) × W)
      → func w ≡ (failed e, w')
      → gives_up policy n e ≡ false
      → Ended (n + 1) bound (pause hooks policy n e w') out
      → Ended n (bound + 1) w out
  Ended-again n bound w w' e (none, v) h g x = x
  Ended-again n bound w w' e (some r, v) h g (k, t, b) = (suc k, again h g t, omega arith)

  -- The pair from its first part.
  outcome : (w : W) (r : Reply A) → (func w).0 ≡ r → func w ≡ (r, (func w).1)
  outcome w r e = λ i. (e i, (func w).1)

  abbrev budget : ℕ → ℕ
  budget n = max 1 (policy.max_attempts + 1 - n)

  not_last : (n : ℕ) (x : Exc) → gives_up policy n x ≡ false → n < policy.max_attempts
  not_last n x h = ground arith

  budget-next : (n : ℕ) (x : Exc) → gives_up policy n x ≡ false → budget (n + 1) + 1 ≡ budget n
  budget-next n x h = omega (arith, not_last n x h)

  -- The loop after one attempt, with what follows at hand.
  Ended-step :
      (fuel n : ℕ) (w : W) (r : Reply A)
      → (func w).0 ≡ r
      → ((x : Exc) (v : W)
          → gives_up policy n x ≡ false
          → Ended (n + 1) (budget (n + 1)) v (retry_from hooks policy func fuel (n + 1) v))
      → Ended n (budget n) w (retry_from hooks policy func (suc fuel) n w)
  unfolding retry_from
  Ended-step fuel n w (reply a) e next =
      rw (e, retry_from) (1, returns (outcome w _ e), omega arith)
  Ended-step fuel n w (failed x) e next = elim (Bool-cases (gives_up policy n x)) [
    | inl last ↦ rw (e, retry_from) (rw last (1, raises (outcome w _ e) last, omega arith))
    | inr more ↦
        let v = pause hooks policy n x (func w).1 in
        let later = Ended-again n _ w _ x _ (outcome w _ e) more (next x v more) in
        rw (e, retry_from)
          (rw more (
            subst (λ b. Ended n b w (retry_from hooks policy func fuel (n + 1) v))
              (budget-next n x more) later))
  ]

  retry_from-Ended :
      (fuel n : ℕ) (w : W)
      → policy.max_attempts + 1 ≤ fuel + n
      → 1 ≤ fuel
      → Ended n (budget n) w (retry_from hooks policy func fuel n w)
  retry_from-Ended zero n w enough some_fuel = absurd (omega arith)
  retry_from-Ended (suc fuel) n w enough some_fuel =
      Ended-step fuel n w (func w).0 refl
        λ x v more. retry_from-Ended fuel (n + 1) v (omega arith) (omega (arith, not_last n x more))

  -- With the policy's attempts as its fuel the loop always ends: it hands back what some sequence of
  -- attempts gives, which starts at attempt 1, pauses once after each transient failure but the
  -- last allowed one, and makes at most `max_attempts` calls, or a single one if that is 0.
  pub execute_with_retry-Ended :
      (w : W) → Ended 1 (max 1 policy.max_attempts) w (execute_with_retry hooks policy func w)
  unfolding execute_with_retry
  execute_with_retry-Ended w =
      let same : budget 1 ≡ max 1 policy.max_attempts = omega arith in
      subst (λ b. Ended 1 b w (execute_with_retry hooks policy func w)) same
        (retry_from-Ended (policy.max_attempts + 1) 1 w (omega arith) (omega arith))
