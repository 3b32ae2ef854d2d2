-- ===== src/Pacer.antt =====
-- src/gdrive_turbo_copy/pacer.py: the token bucket, and the bucket whose rate follows what Drive allows.
-- The arithmetic of the machine's floats, with its rounding, is a parameter.
pub mod Laws
pub mod Bounds
use gdrive_turbo_copy.Prelude.{
  ℕ, zero, suc, ◌+◌, Bool, true, false, not, ◌&&◌, Option, none, some, leb, max, if◌then◌else◌,
}
use gdrive_turbo_copy.Prelude.Int.{Float, pos, of_ℤ, ltb_float, zero_float}

pub record Numbers : Type 1 where
  pub Number : Type 0
  pub ltb : Number → Number → Bool
  pub add : Number → Number → Number
  pub sub : Number → Number → Number
  pub mul : Number → Number → Number
  pub div : Number → Number → Number
  pub of_float : Float → Number

-- `time.monotonic` and `time.sleep`
pub record Clock (N W : Type 0) : Type 0 where
  pub monotonic : W → N × W
  pub sleep : N → W → W

pub record TokenBucket (N : Type 0) : Type 0 where
  pub rate : N
  pub capacity : N
  pub tokens : N
  pub last : N

pub record AdaptivePacer (N : Type 0) : Type 0 where
  pub bucket : TokenBucket N
  pub max_rate : N
  pub min_rate : N
  pub backoff : N
  pub recover_step : N
  pub recover_after : ℕ
  pub successes : ℕ
  pub cooldown_until : N

-- What `make_pacer` returns: `NullPacer`, or an adaptive one.
pub data Pacer (N : Type 0) : Type 0 where
  null_pacer : Pacer N
  adaptive : AdaptivePacer N → Pacer N

module _ (num : Numbers) where
  abbrev pub N : Type 0
  N = num.Number

  abbrev pub nought : N
  nought = num.of_float zero_float

  abbrev pub one : N
  one = num.of_float (of_ℤ (pos 1))

  -- 0.5, 0.1 and 1e-9
  abbrev pub half : N
  half = num.of_float (record { mantissa = pos 1; exponent = 1 })

  abbrev pub tenth : N
  tenth = num.of_float (record { mantissa = pos 3602879701896397; exponent = 55 })

  abbrev pub eps : N
  eps = num.of_float (record { mantissa = pos 4835703278458517; exponent = 82 })

  abbrev pub least : N → N → N
  least a b = if num.ltb b a then b else a

  abbrev pub greatest : N → N → N
  greatest a b = if num.ltb a b then b else a

  -- `a <= 0`
  abbrev pub is_idle : N → Bool
  is_idle a = not (num.ltb nought a)

  unfoldable pub new_pacer : N → N → N → AdaptivePacer N
  new_pacer max_rate min_rate now = record {
    bucket = record {
      rate = max_rate;
      capacity = greatest one max_rate;
      tokens = greatest one max_rate;
      last = now;
    };
    max_rate = max_rate;
    min_rate = greatest tenth min_rate;
    backoff = half;
    recover_step = one;
    recover_after = 25;
    successes = 0;
    cooldown_until = nought;
  }

  module _ {W : Type 0} (clock : Clock N W) where
    -- With `min_tps` at 1, its default.
    unfoldable pub make_pacer : Float → W → Pacer N × W
    make_pacer max_tps w =
        let p = clock.monotonic w in
        if ltb_float zero_float max_tps
        then (adaptive (new_pacer (num.of_float max_tps) one p.0), p.1)
        else (null_pacer, w)

    -- `_refill_locked`
    unfoldable pub refill : TokenBucket N → W → TokenBucket N × W
    refill b w =
        let p = clock.monotonic w in
        let elapsed = num.sub p.0 b.last in
        (
          if num.ltb nought elapsed
              then record b {
                tokens = least b.capacity (num.add b.tokens (num.mul elapsed b.rate));
                last = p.0;
              }
              else b,
          p.1,
        )

    -- The loop of `acquire`; `none` stands for a wait that has not ended.
    unfoldable pub wait_for : ℕ → N → N → TokenBucket N → W → Option N × TokenBucket N × W
    wait_for zero tokens slept b w = (none, b, w)
    wait_for (suc fuel) tokens slept b w =
        let p = refill b w in
        let wait = num.div (num.sub tokens p.0.tokens) p.0.rate in
        let rest = wait_for fuel tokens (num.add slept wait) p.0 (clock.sleep wait p.1) in
        if not (num.ltb p.0.tokens (num.sub tokens eps))
        then (
          some slept,
          record (p.0) { tokens = greatest nought (num.sub p.0.tokens tokens) },
          p.1,
        )
        else rest

    unfoldable pub take_tokens : ℕ → N → TokenBucket N → W → Option N × TokenBucket N × W
    take_tokens fuel tokens b w =
        if is_idle b.rate then (some nought, b, w) else wait_for fuel tokens nought b w

    -- The wait for the end of the cooldown.
    unfoldable pub cool_down : ℕ → N → N → W → Option N × W
    cool_down zero slept deadline w = (none, w)
    cool_down (suc fuel) slept deadline w =
        let p = clock.monotonic w in
        let wait = num.sub deadline p.0 in
        let rest = cool_down fuel (num.add slept wait) deadline (clock.sleep wait p.1) in
        if is_idle wait then (some slept, p.1) else rest

    abbrev pub in_all : N → Option N × TokenBucket N × W → Option N × TokenBucket N × W
    in_all slept (none, b, w) = (none, b, w)
    in_all slept (some more, b, w) = (some (num.add slept more), b, w)

    abbrev pub cooled : ℕ → N → TokenBucket N → Option N × W → Option N × TokenBucket N × W
    cooled fuel tokens b (none, w) = (none, b, w)
    cooled fuel tokens b (some slept, w) = in_all slept (take_tokens fuel tokens b w)

    unfoldable pub acquire : ℕ → N → AdaptivePacer N → W → Option N × AdaptivePacer N × W
    acquire fuel tokens p w =
        let (slept, b, w') =
          cooled fuel tokens p.bucket (cool_down fuel nought p.cooldown_until w) in
        if is_idle p.bucket.rate then (some nought, p, w) else (slept, record p { bucket = b }, w')

    -- A rate with the burst that goes with it.
    abbrev pub set_rate : N → TokenBucket N → TokenBucket N
    set_rate rate b = record b { rate = rate; capacity = greatest one rate }

    unfoldable pub slow_down : AdaptivePacer N → AdaptivePacer N
    slow_down p =
        let b = set_rate (greatest p.min_rate (num.mul p.bucket.rate p.backoff)) p.bucket in
        record p {
          successes = 0;
          bucket = if num.ltb b.capacity b.tokens then record b { tokens = b.capacity } else b;
        }

    abbrev pub until : N → AdaptivePacer N → AdaptivePacer N
    until deadline p = record p { cooldown_until = greatest p.cooldown_until deadline }

    unfoldable pub record_throttle : Option Float → AdaptivePacer N → W → AdaptivePacer N × W
    record_throttle none p w = (slow_down p, w)
    record_throttle (some retry_after) p w =
        let q = clock.monotonic w in
        if ltb_float zero_float retry_after
        then (until (num.add q.0 (num.of_float retry_after)) (slow_down p), q.1)
        else (slow_down p, w)

  unfoldable pub record_success : AdaptivePacer N → AdaptivePacer N
  record_success p =
      if not (num.ltb p.bucket.rate p.max_rate)
      then record p { successes = 0 }
      else if leb p.recover_after (p.successes + 1)
      then record p {
        bucket = record (p.bucket) {
          rate = least p.max_rate (num.add p.bucket.rate p.recover_step);
          capacity = greatest one (least p.max_rate (num.add p.bucket.rate p.recover_step));
        };
        successes = 0;
      }
      else record p { successes = p.successes + 1 }
