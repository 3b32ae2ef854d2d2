-- ===== src/Client/Limiters.antt =====
-- What the steps of a limiter leave of it.
use gdrive_turbo_copy.Prelude.{
  ◌≤◌, ◌≡◌, ◌∙◌, refl, sym, subst, true, Option, none, some, arith, Bool-cases, inl, inr,
}
use gdrive_turbo_copy.Concurrency.{
  OperationType, Limiter, Controller, record_success, record_throttle,
}
use gdrive_turbo_copy.Client.{same_kind, update}

-- The places taken and the bounds are the same, and a limit within the bounds stays there.
pub record Alike (l l' : Limiter) : Type 0 where
  pub flight : l'.in_flight ≡ l.in_flight
  pub lowest : l'.min_limit ≡ l.min_limit
  pub highest : l'.max_limit ≡ l.max_limit
  pub bounds :
      (l.min_limit ≤ l.limit) × (l.limit ≤ l.max_limit)
      → (l'.min_limit ≤ l'.limit) × (l'.limit ≤ l'.max_limit)

Alike-refl : (l : Limiter) → Alike l l
Alike-refl l = record { flight = refl; lowest = refl; highest = refl; bounds = λ b. b }

pub Alike-trans : {l m n : Limiter} → Alike l m → Alike m n → Alike l n
Alike-trans a b = record {
  flight = b.flight ∙ a.flight;
  lowest = b.lowest ∙ a.lowest;
  highest = b.highest ∙ a.highest;
  bounds = λ h. b.bounds (a.bounds h);
}

pub record_throttle-Alike : (l : Limiter) → Alike l (record_throttle l)
unfolding record_throttle
record_throttle-Alike l = record {
  flight = refl;
  lowest = refl;
  highest = refl;
  bounds = λ (a, b). (omega arith, omega (arith, a, b));
}

pub record_success-Alike : (l : Limiter) → Alike l (record_success l)
unfolding record_success
record_success-Alike l = record {
  flight = ground arith;
  lowest = ground arith;
  highest = ground arith;
  bounds = λ (a, b). ground (arith, a, b);
}

pub same_kind-eq : (o op : OperationType) → same_kind o op ≡ true → o ≡ op
same_kind-eq o op h = ground arith

-- A change of one limiter.
pub update-Alike :
    (op : OperationType) (l : Limiter) (c : Controller)
    → Alike (c op) l
    → (o : OperationType) → Alike (c o) (update op l c o)
unfolding update
update-Alike op l c a o = elim (Bool-cases (same_kind o op)) [
  | inl same ↦ rw same (subst (λ x. Alike (c x) l) (sym (same_kind-eq o op same)) a)
  | inr other ↦ rw other (Alike-refl (c o))
]

-- The two controllers, or none, are alike.
pub data AllAlike : Option Controller → Option Controller → Type 0 where
  no_controller : AllAlike none none
  all_alike :
      {c c' : Controller} → ((o : OperationType) → Alike (c o) (c' o)) → AllAlike (some c) (some c')

pub AllAlike-refl : (o : Option Controller) → AllAlike o o
AllAlike-refl none = no_controller
AllAlike-refl (some c) = all_alike (λ o. Alike-refl (c o))
