-- ===== src/Client/Laws.antt =====
-- What a request leaves of the controller.
use gdrive_turbo_copy.Prelude.{
  ℕ, ◌+◌, ◌≡◌, refl, sym, subst, Bool, true, false, Option, none, some, arith, Bool-cases, inl, inr,
  if◌then◌else◌,
}
use gdrive_turbo_copy.Retry.Loop.{Reply, RetryPolicy, Hooks}
use gdrive_turbo_copy.Concurrency.{OperationType, Limiter, Controller, acquire, release}
use gdrive_turbo_copy.Concurrency.Steps.{acquire-some}
use gdrive_turbo_copy.Pacer.{Numbers, Clock}
use gdrive_turbo_copy.Client.{
  same_kind, update, Client, adjust, exec, in_slot, with_slot, run, Answer, at_controller,
  has_ended,
}
use gdrive_turbo_copy.Client.Limiters.{
  Alike, same_kind-eq, AllAlike, no_controller, all_alike, AllAlike-refl,
}
use gdrive_turbo_copy.Client.Held.{exec-Held}

module _ (num : Numbers) {W : Type 0} (clock : Clock num.Number W) (op : OperationType) where
  abbrev State : Type 0
  State = Client num.Number W

  -- The limiter of the kind on the way into the slot and out of it: one place is taken, and given back.
  left-Alike :
      (l l'' : Limiter)
      → Alike (record l { in_flight = l.in_flight + 1 }) l''
      → Alike l (release l'')
  unfolding release
  left-Alike l l'' a = record {
    flight = omega (arith, a.flight);
    lowest = a.lowest;
    highest = a.highest;
    bounds = a.bounds;
  }

  entered-left : (l l' l'' : Limiter) → acquire l ≡ some l' → Alike l' l'' → Alike l (release l'')
  entered-left l l' l'' h a =
      left-Alike l l'' (subst (λ x. Alike x l'') ((acquire-some l l' h).1) a)

  same_kind_refl : (o : OperationType) → same_kind o o ≡ true
  same_kind_refl o = ground arith

  update-same : (l : Limiter) (c : Controller) → update op l c op ≡ l
  unfolding update
  update-same l c = rw (same_kind_refl op) refl

  update-other :
      (l : Limiter) (c : Controller) (o : OperationType)
      → same_kind o op ≡ false
      → update op l c o ≡ c o
  unfolding update
  update-other l c o h = rw h refl

  left-at :
      (c c' : Controller) (l : Limiter) (o : OperationType)
      → acquire (c op) ≡ some l
      → ((k : OperationType) → Alike (update op l c k) (c' k))
      → Alike (c o) (update op (release (c' op)) c' o)
  unfolding update
  left-at c c' l o h k = elim (Bool-cases (same_kind o op)) [
    | inl same ↦ rw same (
        subst (λ x. Alike (c x) (release (c' op))) (sym (same_kind-eq o op same))
          (entered-left (c op) l (c' op) h (subst (λ x. Alike x (c' op)) (update-same l c) (k op))))
    | inr other ↦ rw other (subst (λ x. Alike x (c' o)) (update-other l c o other) (k o))
  ]

  left-AllAlike :
      (c : Controller) (l : Limiter) (t : Option Controller)
      → acquire (c op) ≡ some l
      → AllAlike (some (update op l c)) t
      → AllAlike (some c) (adjust num clock release op t)
  left-AllAlike c l t h (all_alike {c' = c'} k) = all_alike (λ o. left-at c c' l o h k)

  -- The places in the limiters, from before a request to after it, by whether it has ended.
  pub data Places : Option Controller → Bool → Option Controller → Type 0 where
    given_back : {start end : Option Controller} → AllAlike start end → Places start true end
    unlimited : Places none false none
    waits_outside : {c : Controller} → acquire (c op) ≡ none → Places (some c) false (some c)
    waits_inside :
        {c : Controller} {end : Option Controller} (l : Limiter)
        → acquire (c op) ≡ some l
        → AllAlike (some (update op l c)) end
        → Places (some c) false end

  left-Places :
      (c : Controller) (l : Limiter) (b : Bool) (s : State)
      → acquire (c op) ≡ some l
      → AllAlike (some (update op l c)) s.controller
      → Places (some c) b (if b then at_controller num clock release op s else s).controller
  left-Places c l true s h k = given_back (left-AllAlike c l s.controller h k)
  left-Places c l false s h k = waits_inside l h k

  free-Places : (b : Bool) {o : Option Controller} → AllAlike none o → Places none b o
  free-Places true h = given_back h
  free-Places false no_controller = unlimited

  module _ (hooks : Hooks W) (policy : RetryPolicy) (fuel : ℕ) {A : Type 0}
      (request : W → Reply A × W) where
    abbrev body : State → Option (Answer num clock A) × State
    body = exec num clock hooks policy fuel op request

    abbrev Placed : Option Controller → Option (Answer num clock A) × State → Type 0
    Placed start out = Places start (has_ended num clock out.0) out.1.controller

    in_slot-Placed :
        (c : Controller) (o : Option Limiter) (s : State)
        → acquire (c op) ≡ o
        → s.controller ≡ some c
        → Placed (some c) (in_slot num clock op body c o s)
    in_slot-Placed c none s h e = rw e (waits_outside h)
    in_slot-Placed c (some l) s h e =
        let inside = record s { controller = some (update op l c) } in
        left-Places c l (has_ended num clock (body inside).0) (body inside).1 h (
          exec-Held num clock op (some (update op l c)) hooks policy fuel request inside
            (AllAlike-refl _))

    with_slot-Placed :
        (o : Option Controller) (s : State)
        → s.controller ≡ o
        → Placed o (with_slot num clock op body o s)
    with_slot-Placed none s e =
        free-Places (has_ended num clock (body s).0)
          (exec-Held num clock op none hooks policy fuel request s (rw e no_controller))
    with_slot-Placed (some c) s e = in_slot-Placed c (acquire (c op)) s refl e

    -- When a request has ended, be it answered or given up, the limiters of all kinds have as many
    -- places taken as before it, and the same bounds, and a limit that was within its bounds still
    -- is. A request that still waits has either found the limiter of its kind full and changed
    -- nothing, or has taken one place there, which it keeps while it waits for the pacer.
    pub run-Places :
        (s : State)
        → let out = run num clock hooks policy fuel op request s in
          Places s.controller (has_ended num clock out.0) out.1.controller
    unfolding run
    run-Places s = with_slot-Placed s.controller s refl
