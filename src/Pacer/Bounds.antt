-- ===== src/Pacer/Bounds.antt =====
-- The pacer keeps its rate between its bounds, whatever is asked of it and in whatever order.
use gdrive_turbo_copy.Prelude.{
  ℕ, zero, suc, ◌≡◌, refl, Bool, true, false, not, Option, none, some, List, [], ◌∷◌, arith,
  if◌then◌else◌,
}
use gdrive_turbo_copy.Prelude.Int.{Float, ltb_float, zero_float}
use gdrive_turbo_copy.Pacer.{
  Numbers, Clock, TokenBucket, AdaptivePacer, nought, one, half, tenth, eps, greatest, is_idle,
  new_pacer, refill, wait_for, take_tokens, cool_down, in_all, cooled, acquire, slow_down,
  record_throttle, record_success,
}
use gdrive_turbo_copy.Pacer.Laws.{
  Ordered, Le, Fits, Paced, greatest-above, least-below, greatest-below, new_pacer-Paced,
  slow_down-Paced, record_success-Paced,
}

module _ (num : Numbers) (ord : Ordered num) {W : Type 0} (clock : Clock num.Number W) where
  abbrev Bucket : Type 0
  Bucket = TokenBucket num.Number

  Fits-if :
      (lo hi : num.Number) (b : Bool) (x y : Bucket)
      → Fits num ord lo hi x
      → Fits num ord lo hi y
      → Fits num ord lo hi (if b then x else y)
  Fits-if lo hi true x y f g = f
  Fits-if lo hi false x y f g = g

  refill-Fits :
      (lo hi : num.Number) (b : Bucket) (w : W)
      → Fits num ord lo hi b
      → Fits num ord lo hi (refill num clock b w).0
  unfolding refill
  refill-Fits lo hi b w v =
      Fits-if lo hi (num.ltb (nought num) (num.sub (clock.monotonic w).0 b.last)) _ b
        (record {
          floor = v.floor;
          ceiling = v.ceiling;
          burst = v.burst;
          full = least-below num ord b.capacity _;
        })
        v

  one_above : (c : num.Number) → Le num ord (nought num) (greatest num (one num) c)
  one_above c = ord.trans _ _ _ ord.one_up (greatest-above num ord (one num) c)

  -- The taking of tokens keeps what the burst allows.
  taken-Fits :
      (lo hi tokens : num.Number) (b : Bucket)
      → Le num ord (nought num) tokens
      → Fits num ord lo hi b
      → Fits num ord lo hi
          (record b { tokens = greatest num (nought num) (num.sub b.tokens tokens) })
  taken-Fits lo hi tokens b t v = record {
    floor = v.floor;
    ceiling = v.ceiling;
    burst = v.burst;
    full =
        greatest-below num ord (nought num) (num.sub b.tokens tokens) b.capacity
          (rw v.burst (one_above b.rate)) (ord.trans _ _ _ (ord.shrinks b.tokens tokens t) v.full);
  }

  -- The bucket of what a wait ends with.
  abbrev bucket_of : Option num.Number × Bucket × W → Bucket
  bucket_of (o, b, w) = b

  bucket_of-if :
      (lo hi : num.Number) (t : Bool) (x y : Option num.Number × Bucket × W)
      → Fits num ord lo hi (bucket_of x)
      → Fits num ord lo hi (bucket_of y)
      → Fits num ord lo hi (bucket_of (if t then x else y))
  bucket_of-if lo hi true x y f g = f
  bucket_of-if lo hi false x y f g = g

  wait_for-Fits :
      (lo hi tokens : num.Number) (t : Le num ord (nought num) tokens) (fuel : ℕ)
      (slept : num.Number) (b : Bucket) (w : W)
      → Fits num ord lo hi b
      → Fits num ord lo hi (bucket_of (wait_for num clock fuel tokens slept b w))
  unfolding wait_for
  wait_for-Fits lo hi tokens t zero slept b w v = v
  wait_for-Fits lo hi tokens t (suc fuel) slept b w v =
      let p = refill num clock b w in
      let f = refill-Fits lo hi b w v in
      bucket_of-if lo hi (not (num.ltb p.0.tokens (num.sub tokens (eps num)))) _ _
        (taken-Fits lo hi tokens p.0 t f) (wait_for-Fits lo hi tokens t fuel _ p.0 _ f)

  take_tokens-Fits :
      (lo hi tokens : num.Number) (t : Le num ord (nought num) tokens) (fuel : ℕ) (b : Bucket)
      (w : W)
      → Fits num ord lo hi b
      → Fits num ord lo hi (bucket_of (take_tokens num clock fuel tokens b w))
  unfolding take_tokens
  take_tokens-Fits lo hi tokens t fuel b w v =
      bucket_of-if lo hi (is_idle num b.rate) _ _ v
        (wait_for-Fits lo hi tokens t fuel (nought num) b w v)

  in_all-bucket_of :
      (slept : num.Number) (x : Option num.Number × Bucket × W)
      → bucket_of (in_all num clock slept x) ≡ bucket_of x
  in_all-bucket_of slept (none, b, w) = refl
  in_all-bucket_of slept (some more, b, w) = refl

  cooled-Fits :
      (lo hi tokens : num.Number) (t : Le num ord (nought num) tokens) (fuel : ℕ) (b : Bucket)
      (x : Option num.Number × W)
      → Fits num ord lo hi b
      → Fits num ord lo hi (bucket_of (cooled num clock fuel tokens b x))
  cooled-Fits lo hi tokens t fuel b (none, w) v = v
  cooled-Fits lo hi tokens t fuel b (some slept, w) v =
      rw (in_all-bucket_of slept (take_tokens num clock fuel tokens b w))
        (take_tokens-Fits lo hi tokens t fuel b w v)

  -- What may be asked of a pacer.
  pub data Request : Type 0 where
    acquires : ℕ → (tokens : num.Number) → Le num ord (nought num) tokens → Request
    throttles : Option Float → Request
    succeeds : Request

  abbrev pub State : Type 0
  State = AdaptivePacer num.Number × W

  abbrev pub serve : Request → State → State
  serve (acquires fuel tokens t) (p, w) =
      let (slept, p', w') = acquire num clock fuel tokens p w in (p', w')
  serve (throttles retry_after) (p, w) = record_throttle num clock retry_after p w
  serve succeeds (p, w) = (record_success num p, w)

  unfoldable pub serve_all : List Request → State → State
  serve_all [] s = s
  serve_all (r ∷ requests) s = serve_all requests (serve r s)

  abbrev Adaptive : Type 0
  Adaptive = AdaptivePacer num.Number

  state-if :
      (P : Adaptive → Type 0) (t : Bool) (x y : State) → P x.0 → P y.0 → P (if t then x else y).0
  state-if P true x y f g = f
  state-if P false x y f g = g

  -- The pacer of what a wait ends with.
  abbrev Acquired : Type 0
  Acquired = Option num.Number × AdaptivePacer num.Number × W

  acquired-if :
      (P : Adaptive → Type 0) (t : Bool) (x y : Acquired) → P x.1 → P y.1 → P (if t then x else y).1
  acquired-if P true x y f g = f
  acquired-if P false x y f g = g

  serve-Paced : (r : Request) (s : State) → Paced num ord s.0 → Paced num ord (serve r s).0
  unfolding acquire record_throttle
  serve-Paced (acquires fuel tokens t) (p, w) v =
      acquired-if (λ q. Paced num ord q) (is_idle num p.bucket.rate) _ _ v
        (record {
          fits =
              cooled-Fits p.min_rate p.max_rate tokens t fuel p.bucket
                (cool_down num clock fuel (nought num) p.cooldown_until w) v.fits;
          positive = v.positive;
          backoff = v.backoff;
          recover_step = v.recover_step;
        })
  serve-Paced (throttles none) (p, w) v = slow_down-Paced num ord p v clock
  serve-Paced (throttles (some r)) (p, w) v =
      let slow = slow_down-Paced num ord p v clock in
      state-if (λ q. Paced num ord q) (ltb_float zero_float r) _ _
        (record {
          fits = slow.fits;
          positive = slow.positive;
          backoff = slow.backoff;
          recover_step = slow.recover_step;
        })
        slow
  serve-Paced succeeds (p, w) v = record_success-Paced num ord p v

  -- The bounds of a pacer.
  abbrev pub Bounded : num.Number → num.Number → Adaptive → Type 0
  Bounded lo hi p = (p.min_rate ≡ lo) × (p.max_rate ≡ hi)

  record_success-Bounded :
      (lo hi : num.Number) (p : Adaptive) → Bounded lo hi p → Bounded lo hi (record_success num p)
  unfolding record_success
  record_success-Bounded lo hi p (low, high) = (ground (arith, low), ground (arith, high))

  serve-Bounded :
      (lo hi : num.Number) (r : Request) (s : State)
      → Bounded lo hi s.0
      → Bounded lo hi (serve r s).0
  unfolding acquire record_throttle slow_down
  serve-Bounded lo hi (acquires fuel tokens t) (p, w) b =
      acquired-if (Bounded lo hi) (is_idle num p.bucket.rate) _ _ b b
  serve-Bounded lo hi (throttles none) (p, w) b = b
  serve-Bounded lo hi (throttles (some r)) (p, w) b =
      state-if (Bounded lo hi) (ltb_float zero_float r) _ _ b b
  serve-Bounded lo hi succeeds (p, w) b = record_success-Bounded lo hi p b

  serve_all-Bounded :
      (lo hi : num.Number) (requests : List Request) (s : State)
      → Bounded lo hi s.0
      → Bounded lo hi (serve_all requests s).0
  unfolding serve_all
  serve_all-Bounded lo hi [] s b = b
  serve_all-Bounded lo hi (r ∷ requests) s b =
      serve_all-Bounded lo hi requests (serve r s) (serve-Bounded lo hi r s b)

  serve_all-Paced :
      (requests : List Request) (s : State)
      → Paced num ord s.0
      → Paced num ord (serve_all requests s).0
  unfolding serve_all
  serve_all-Paced [] s v = v
  serve_all-Paced (r ∷ requests) s v = serve_all-Paced requests (serve r s) (serve-Paced r s v)

  -- A pacer that is made with its least rate not above its greatest one keeps both bounds, its rate
  -- between them, its burst at that of its rate, and no more tokens than the burst, whatever
  -- acquisitions, throttles and successes it is asked for and in whatever order, if the machine's
  -- numbers are ordered, a halving does not raise a number, adding one does not lower it, and taking
  -- from it does not raise it.
  pub serve_all-new_pacer :
      (requests : List Request) (max_rate min_rate now : num.Number) (w : W)
      → Le num ord (greatest num (tenth num) min_rate) max_rate
      → Bounded
          (greatest num (tenth num) min_rate)
          max_rate
          (serve_all requests (new_pacer num max_rate min_rate now, w)).0
        × Paced num ord (serve_all requests (new_pacer num max_rate min_rate now, w)).0
  unfolding new_pacer
  serve_all-new_pacer requests max_rate min_rate now w h = (
    serve_all-Bounded _ _ requests (new_pacer num max_rate min_rate now, w) (refl, refl),
    serve_all-Paced requests _ (new_pacer-Paced num ord max_rate min_rate now h),
  )

  lt_of_lt_of_le : (a b c : num.Number) → num.ltb a b ≡ true → Le num ord b c → num.ltb a c ≡ true
  lt_of_lt_of_le a b c less le = grind (arith, ord.trans b c a)

  rate-if :
      (t : Bool) (x y : Bucket) (P : num.Number → Type 0)
      → P x.rate
      → P y.rate
      → P (if t then x else y).rate
  rate-if true x y P f g = f
  rate-if false x y P f g = g

  -- A pacer whose greatest rate is below its least one, such as `make_pacer` gives for fewer than one
  -- request a second, is sped up by the first throttle: its rate rises above its greatest one.
  pub slow_down-speeds_up :
      (max_rate min_rate now : num.Number)
      → num.ltb max_rate (greatest num (tenth num) min_rate) ≡ true
      → num.ltb max_rate (slow_down num clock (new_pacer num max_rate min_rate now)).bucket.rate
        ≡ true
  unfolding slow_down new_pacer
  slow_down-speeds_up max_rate min_rate now less =
      let bottom = greatest num (tenth num) min_rate in
      let raised =
        lt_of_lt_of_le max_rate bottom (greatest num bottom (num.mul max_rate (half num))) less
          (greatest-above num ord bottom (num.mul max_rate (half num))) in
      rate-if _ _ _ (λ r. num.ltb max_rate r ≡ true) raised raised
