-- ===== src/Copier/Kept.antt =====
-- What an action leaves true of Drive, by the way the action is built.
use gdrive_turbo_copy.Prelude.{◌≡◌, refl, Bool, true, false, if◌then◌else◌}
use gdrive_turbo_copy.Copier.Engine.{Engine, Outcome, done, raised, out_of_fuel, Action, continue}

module _ {W : Type 0} (P : W → Type 0) where
  abbrev pub Kept : {A : Type 0} → Outcome A × Engine W → Type 0
  Kept p = P p.1.world

  pub Kept-continue :
      {A B : Type 0} (out : Outcome A × Engine W) (f : A → Action W B)
      → Kept out
      → ((a : A) (e : Engine W) → P e.world → Kept (f a e))
      → Kept (continue out f)
  Kept-continue (done a, e) f p k = k a e p
  Kept-continue (raised x, e) f p k = p
  Kept-continue (out_of_fuel, e) f p k = p

  pub Kept-if :
      {A : Type 0} (b : Bool) (m n : Outcome A × Engine W)
      → (b ≡ true → Kept m)
      → Kept n
      → Kept (if b then m else n)
  Kept-if true m n k l = k refl
  Kept-if false m n k l = l

  pub Kept-fork :
      {A : Type 0} (b : Bool) (m n : Action W A) (e : Engine W)
      → Kept (m e)
      → Kept (n e)
      → Kept ((if b then m else n) e)
  Kept-fork true m n e k l = k
  Kept-fork false m n e k l = l
