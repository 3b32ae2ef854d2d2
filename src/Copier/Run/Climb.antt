-- ===== src/Copier/Run/Climb.antt =====
-- `_is_descendant_of` against the relation of being an ancestor.
use gdrive_turbo_copy.Prelude.{
  ℕ, zero, suc, ◌+◌, ◌≡◌, ◌∙◌, ◌⊎◌, refl, sym, subst, String, Bool, true, false, not, ◌||◌, ◌&&◌,
  List, [], ◌∷◌, arith, length, string_eq, ◌==◌, ==_refl, eq_of_==, Bool-cases, inl, inr, truthy,
  if◌then◌else◌,
}
use mathlib.Core.Bool.{false≢true}
use gdrive_turbo_copy.Prelude.Sets.{contains}
use gdrive_turbo_copy.Copier.Drive.{Drive}
use gdrive_turbo_copy.Copier.Engine.{Engine, Outcome, done, raised, out_of_fuel}
use gdrive_turbo_copy.Copier.Run.{push_parents, parents_told, climb, is_descendant_of}

unfoldable pub distinct : List String → Bool
distinct [] = true
distinct (x ∷ l) = not (contains x l) && distinct l

-- The second folder is the first, or holds an ancestor of it, as the parents are told.
pub data Above (told : String → List String) (c : String) : String → Type 0 where
  itself : Above told c c
  parent : {x : String} (p : String) → Above told c x → contains p (told x) ≡ true → Above told c p

push_parents-old :
    (q : String) (parents seen stack : List String)
    → contains q stack ≡ true
    → contains q (push_parents parents seen stack) ≡ true
unfolding push_parents contains
push_parents-old q [] seen stack h = h
push_parents-old q (p ∷ parents) seen stack h =
    push_parents-old q parents seen _ (ground (arith, h))

push_parents-new :
    (q : String) (parents seen stack : List String)
    → contains q parents ≡ true
    → (contains q seen || contains q (push_parents parents seen stack)) ≡ true
unfolding push_parents contains
push_parents-new q [] seen stack h = absurd (false≢true h)
push_parents-new q (p ∷ parents) seen stack h = elim (Bool-cases (q == p)) [
  | inl same ↦ elim (Bool-cases (contains p seen)) [
    | inl known ↦
        rw known
          (ground (arith, subst (λ x. contains x seen ≡ true) (sym (eq_of_== q p same)) known))
    | inr fresh ↦
        rw fresh (ground (arith, push_parents-old q parents seen (p ∷ stack) (rw same refl)))
  ]
  | inr other ↦
      push_parents-new q parents seen (if contains p seen then stack else p ∷ stack)
        (ground (arith, h, other))
]

push_parents-from :
    (q : String) (parents seen stack : List String)
    → contains q (push_parents parents seen stack) ≡ true
    → (contains q parents || contains q stack) ≡ true
unfolding push_parents contains
push_parents-from q [] seen stack h = h
push_parents-from q (p ∷ parents) seen stack h =
    ground
      (arith, push_parents-from q parents seen (if contains p seen then stack else p ∷ stack) h)

or_cases : (a b : Bool) → (a || b) ≡ true → (a ≡ true) ⊎ (b ≡ true)
or_cases a b h = ground arith

left_or : (a b : Bool) → a ≡ true → (a || b) ≡ true
left_or a b h = ground arith

right_or : (a b : Bool) → b ≡ true → (a || b) ≡ true
right_or a b h = ground arith

member-same :
    (p q : String) (l : List String) → (p == q) ≡ true → contains q l ≡ true → contains p l ≡ true
member-same p q l same h = subst (λ x. contains x l ≡ true) (sym (eq_of_== p q same)) h

other_way : (a b : String) → (a == b) ≡ false → (b == a) ≡ false
other_way a b h = grind (arith, eq_of_== b a, ==_refl a)

-- A folder that was seen, or waits on a stack, when the top of the stack has been looked at.
moved :
    (p cur : String) (parents seen stack : List String)
    → (contains p seen || (p == cur || contains p stack)) ≡ true
    → (contains p (cur ∷ seen) || contains p (push_parents parents (cur ∷ seen) stack)) ≡ true
unfolding contains
moved p cur parents seen stack h = ground (arith, h, push_parents-old p parents (cur ∷ seen) stack)

module _ (told : String → List String) (c ancestor : String) where
  -- What the search knows: where all that it has met comes from, that it has met neither the ancestor
  -- nor a folder twice, and that a parent of a folder it has looked at is met or waits on the stack.
  record Search (room : ℕ) (seen stack : List String) : Type 0 where
    waiting : (x : String) → contains x stack ≡ true → Above told c x
    met : (x : String) → contains x seen ≡ true → Above told c x
    not_met : contains ancestor seen ≡ false
    closed :
        (x p : String)
        → contains x seen ≡ true
        → contains p (told x) ≡ true
        → (contains p seen || contains p stack) ≡ true
    started : (contains c seen || contains c stack) ≡ true
    counted : length seen + room ≡ 200
    apart : distinct seen ≡ true

  -- So many different folders lie above the first one that the search gives up.
  pub record Crowd : Type 0 where
    pub folders : List String
    pub many : length folders ≡ 200
    pub different : distinct folders ≡ true
    pub above : (x : String) → contains x folders ≡ true → Above told c x

  -- What the search answers: whether the one lies above the other, unless it gives up.
  abbrev pub Answers : Bool → Type 0
  Answers true = Above told c ancestor
  Answers false = (Above told c ancestor → ⊥) ⊎ Crowd

  all-seen :
      (room : ℕ) (seen : List String)
      → Search room seen []
      → (x : String) → Above told c x
      → contains x seen ≡ true
  unfolding contains
  all-seen room seen s x itself = ground (arith, s.started)
  all-seen room seen s x (parent {x = y} p a h) =
      ground (arith, s.closed y p (all-seen room seen s y a) h)

  Search-skip :
      (room : ℕ) (cur : String) (seen stack : List String)
      → contains cur seen ≡ true
      → Search room seen (cur ∷ stack)
      → Search room seen stack
  unfolding contains
  Search-skip room cur seen stack h s = record {
    waiting = λ x w. s.waiting x (right_or (x == cur) (contains x stack) w);
    met = s.met;
    not_met = s.not_met;
    closed = λ x p m k. ground (arith, s.closed x p m k, member-same p cur seen, h);
    started = ground (arith, s.started, member-same c cur seen, h);
    counted = s.counted;
    apart = s.apart;
  }

  Search-next :
      (room : ℕ) (cur : String) (seen stack : List String)
      → (cur == ancestor) ≡ false
      → contains cur seen ≡ false
      → Search (suc room) seen (cur ∷ stack)
      → Search room (cur ∷ seen) (push_parents (told cur) (cur ∷ seen) stack)
  unfolding contains distinct
  Search-next room cur seen stack d h s = record {
    waiting = λ x w.
        elim (or_cases (contains x (told cur)) (contains x stack)
          (push_parents-from x (told cur) (cur ∷ seen) stack w)) [
            | inl new ↦
                parent x (s.waiting cur (left_or (cur == cur) (contains cur stack) (==_refl cur)))
                  new
            | inr old ↦ s.waiting x (right_or (x == cur) (contains x stack) old)
          ];
    met = λ x m. elim (or_cases (x == cur) (contains x seen) m) [
      | inl same ↦ s.waiting x (left_or (x == cur) (contains x stack) same)
      | inr old ↦ s.met x old
    ];
    not_met = ground (arith, s.not_met, other_way cur ancestor d);
    closed = λ x p m k. elim (or_cases (x == cur) (contains x seen) m) [
      | inl same ↦
          push_parents-new p (told cur) (cur ∷ seen) stack
            (subst (λ y. contains p (told y) ≡ true) (eq_of_== x cur same) k)
      | inr old ↦ moved p cur (told cur) seen stack (s.closed x p old k)
    ];
    started = moved c cur (told cur) seen stack s.started;
    counted = omega (arith, s.counted);
    apart = ground (arith, h, s.apart);
  }

  module _ (drive : Drive)
      (honest : (id : String) (w : drive.World)
        → parents_told (drive.get_metadata id w).0 ≡ told id) where
    -- The search ends, and its answer is right.
    abbrev pub Found : Outcome Bool × Engine drive.World → Type 0
    Found (done b, e) = Answers b
    Found (raised x, e) = ⊥
    Found (out_of_fuel, e) = ⊥

    climb-Found :
        (room : ℕ) (seen stack : List String) (e : Engine drive.World)
        → Search room seen stack
        → Found (climb drive room ancestor seen stack e)
    unfolding climb contains
    climb-Found zero seen stack e s = inr (record {
      folders = seen;
      many = omega (arith, s.counted);
      different = s.apart;
      above = s.met;
    })
    climb-Found (suc room) seen [] e s =
        inl (λ a. absurd (false≢true (sym s.not_met ∙ all-seen (suc room) seen s ancestor a)))
    climb-Found (suc room) seen (cur ∷ stack) e s = elim (Bool-cases (cur == ancestor)) [
      | inl same ↦ rw same (
          subst (λ x. Above told c x) (eq_of_== cur ancestor same)
            (s.waiting cur (left_or (cur == cur) (contains cur stack) (==_refl cur))))
      | inr other ↦ elim (Bool-cases (contains cur seen)) [
        | inl known ↦
            rw (other, known)
              (climb-Found (suc room) seen stack e (Search-skip (suc room) cur seen stack known s))
        | inr fresh ↦
            rw (other, fresh, honest cur e.world)
              (climb-Found room (cur ∷ seen) (push_parents (told cur) (cur ∷ seen) stack) _
                (Search-next room cur seen stack other fresh s))
      ]
    ]

    -- If Drive tells the parents of a folder the same way at any time, the test whether one folder lies
    -- in another one ends with the right answer: the one is the other or has it among its ancestors, or
    -- else it does not, unless 200 different folders lie above the one, where the search gives up. Both
    -- ids are not empty.
    pub is_descendant_of-Found :
        (e : Engine drive.World)
        → truthy c ≡ true
        → truthy ancestor ≡ true
        → Found (is_descendant_of drive c ancestor e)
    unfolding is_descendant_of contains distinct
    is_descendant_of-Found e h k =
        rw (h, k)
          (climb-Found 200 [] (c ∷ []) e (record {
            waiting =
                λ x w. subst (λ y. Above told c y) (sym (eq_of_== x c (ground (arith, w)))) itself;
            met = λ x m. absurd (false≢true m);
            not_met = refl;
            closed = λ x p m q. absurd (false≢true m);
            started = ground (arith, ==_refl c);
            counted = refl;
            apart = refl;
          }))
