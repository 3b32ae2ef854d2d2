-- ===== src/Concurrency/Steps.antt =====
-- The workers of one kind of operation as a state machine. Each step holds the lock; a `with` block
-- over a slot is an entry, the work, and one leave.
use gdrive_turbo_copy.Prelude.{
  ℕ, ◌+◌, ◌≤◌, ◌<◌, ◌≡◌, ◌∙◌, refl, ap, true, some, List, [], ◌∷◌, ◌++◌, arith, length,
  length-append, is_some,
}
use gdrive_turbo_copy.Concurrency.{
  Limiter, OperationType, list, copy, create_folder, log_update, metadata, Workers, starting,
  new_controller, acquire, release, record_success, record_throttle,
}

-- A limiter, and the workers that are inside a slot.
pub record Site : Type 0 where
  pub limiter : Limiter
  pub inside : List ℕ

pub data Step (s : Site) : Site → Type 0 where
  enters :
      (worker : ℕ) (l : Limiter)
      → acquire s.limiter ≡ some l
      → Step s (record { limiter = l; inside = worker ∷ s.inside })
  leaves :
      (worker : ℕ) (before after : List ℕ)
      → s.inside ≡ before ++ (worker ∷ after)
      → Step s (record { limiter = release s.limiter; inside = before ++ after })
  succeeds : Step s (record s { limiter = record_success s.limiter })
  throttles : Step s (record s { limiter = record_throttle s.limiter })

pub data Reachable (start : Site) : Site → Type 0 where
  here : Reachable start start
  next : {s s' : Site} → Reachable start s → Step s s' → Reachable start s'

-- The limit stays between its bounds, and every place taken is a worker's.
pub record Sound (s : Site) : Type 0 where
  pub some_place : 1 ≤ s.limiter.min_limit
  pub above_min : s.limiter.min_limit ≤ s.limiter.limit
  pub below_max : s.limiter.limit ≤ s.limiter.max_limit
  pub counted : s.limiter.in_flight ≡ length s.inside
  pub crowd : length s.inside ≤ s.limiter.max_limit

pub acquire-some :
    (l l' : Limiter)
    → acquire l ≡ some l'
    → (l.in_flight < l.limit) × (l' ≡ record l { in_flight = l.in_flight + 1 })
unfolding acquire
acquire-some l l' h = ground arith

length-leave :
    (worker : ℕ) (before after : List ℕ)
    → length (before ++ (worker ∷ after)) ≡ length (before ++ after) + 1
length-leave worker before after =
    omega (arith, length-append before (worker ∷ after), length-append before after)

enters-Sound :
    (s : Site) (worker : ℕ) (l : Limiter)
    → acquire s.limiter ≡ some l
    → Sound s
    → Sound (record { limiter = l; inside = worker ∷ s.inside })
enters-Sound s worker l h v =
    let (room, same) = acquire-some s.limiter l h in
    rw same (record {
      some_place = v.some_place;
      above_min = v.above_min;
      below_max = v.below_max;
      counted = omega (arith, v.counted);
      crowd = omega (arith, v.counted, v.below_max);
    })

leaves-Sound :
    (s : Site) (worker : ℕ) (before after : List ℕ)
    → s.inside ≡ before ++ (worker ∷ after)
    → Sound s
    → Sound (record { limiter = release s.limiter; inside = before ++ after })
unfolding release
leaves-Sound s worker before after h v =
    let less = ap length h ∙ length-leave worker before after in
    record {
      some_place = v.some_place;
      above_min = v.above_min;
      below_max = v.below_max;
      counted = omega (arith, v.counted, less);
      crowd = omega (arith, v.crowd, less);
    }

-- Each step keeps the limit between its bounds, at least 1, the places counted, and no more workers
-- inside than the largest limit.
pub Step-Sound : {s s' : Site} → Step s s' → Sound s → Sound s'
unfolding record_success record_throttle
Step-Sound {s} (enters worker l h) v = enters-Sound s worker l h v
Step-Sound {s} (leaves worker before after h) v = leaves-Sound s worker before after h v
Step-Sound {s} succeeds v = record {
  some_place = ground (arith, v.some_place);
  above_min = ground (arith, v.above_min);
  below_max = ground (arith, v.below_max);
  counted = ground (arith, v.counted);
  crowd = ground (arith, v.crowd);
}
Step-Sound {s} throttles v = record {
  some_place = v.some_place;
  above_min = omega arith;
  below_max = omega (arith, v.above_min, v.below_max);
  counted = v.counted;
  crowd = v.crowd;
}

started :
    (limit after : ℕ) → 1 ≤ limit → Sound (record { limiter = starting limit after; inside = [] })
started limit after h = record {
  some_place = omega arith;
  above_min = h;
  below_max = omega arith;
  counted = refl;
  crowd = omega arith;
}

abbrev pub new_site : OperationType → Workers → Site
new_site op w = record { limiter = new_controller w op; inside = [] }

new_site-Sound : (op : OperationType) (w : Workers) → Sound (new_site op w)
unfolding new_controller
new_site-Sound list w = started _ _ (omega arith)
new_site-Sound copy w = started _ _ (omega arith)
new_site-Sound create_folder w = started _ _ (omega arith)
new_site-Sound log_update w = started _ _ (omega arith)
new_site-Sound metadata w = started _ _ (omega arith)

-- Whatever the numbers of workers asked for, and in whatever order workers enter, leave, succeed and
-- are throttled, each kind of operation keeps its limit between its bounds and at least 1, counts the
-- workers inside, and never lets in more than its largest limit.
pub Reachable-Sound :
    (op : OperationType) (w : Workers) (s : Site) → Reachable (new_site op w) s → Sound s
Reachable-Sound op w s here = new_site-Sound op w
Reachable-Sound op w s (next {s = before} path step) =
    Step-Sound step (Reachable-Sound op w before path)

-- However far throttling has brought the limit down, a worker that looks while nobody is inside is
-- let in.
pub acquire_idle :
    (op : OperationType) (w : Workers) (s : Site)
    → Reachable (new_site op w) s
    → s.inside ≡ []
    → is_some (acquire s.limiter) ≡ true
unfolding acquire
acquire_idle op w s path idle =
    let v = Reachable-Sound op w s path in
    ground (arith, v.some_place, v.above_min, v.counted, ap length idle)
