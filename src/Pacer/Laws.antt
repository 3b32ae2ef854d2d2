-- ===== src/Pacer/Laws.antt =====
-- The bounds of the pacer, whatever is asked of it and in whatever order.
use gdrive_turbo_copy.Prelude.{
  ◌+◌, ◌≡◌, refl, sym, subst, true, false, arith, leb, Bool-cases, inl, inr, if◌then◌else◌,
}
use gdrive_turbo_copy.Pacer.{
  Numbers, Clock, TokenBucket, AdaptivePacer, nought, one, half, tenth, least, greatest, new_pacer,
  set_rate, slow_down, record_success,
}

-- What the pacer relies on of the machine's numbers: their order, and that no operation that it uses
-- rounds to the wrong side of its argument.
pub record Ordered (num : Numbers) : Type 0 where
  pub asym : (a b : num.Number) → num.ltb a b ≡ true → num.ltb b a ≡ false
  pub trans : (a b c : num.Number) → num.ltb b a ≡ false → num.ltb c b ≡ false → num.ltb c a ≡ false
  pub one_up : num.ltb (one num) (nought num) ≡ false
  pub tenth_up : num.ltb (tenth num) (nought num) ≡ false
  pub halves :
      (a : num.Number) → num.ltb a (nought num) ≡ false → num.ltb a (num.mul a (half num)) ≡ false
  pub grows : (a : num.Number) → num.ltb (num.add a (one num)) a ≡ false
  pub shrinks :
      (a t : num.Number) → num.ltb t (nought num) ≡ false → num.ltb a (num.sub a t) ≡ false

module _ (num : Numbers) (ord : Ordered num) where
  -- `a <= b`
  abbrev pub Le : num.Number → num.Number → Type 0
  Le a b = num.ltb b a ≡ false

  pub Le-refl : (a : num.Number) → Le a a
  Le-refl a = grind (arith, ord.asym a a)

  pub greatest-above : (a b : num.Number) → Le a (greatest num a b)
  greatest-above a b = grind (arith, ord.asym a b, Le-refl a)

  pub greatest-above_2 : (a b : num.Number) → Le b (greatest num a b)
  greatest-above_2 a b = grind (arith, Le-refl b)

  pub greatest-below : (a b c : num.Number) → Le a c → Le b c → Le (greatest num a b) c
  greatest-below a b c h k = grind (arith, h, k)

  pub least-below : (a b : num.Number) → Le (least num a b) a
  least-below a b = grind (arith, ord.asym b a, Le-refl a)

  least-above : (a b c : num.Number) → Le c a → Le c b → Le c (least num a b)
  least-above a b c h k = grind (arith, h, k)

  -- The rate is between two bounds, the burst is that of the rate, and no more tokens are there than
  -- the burst allows.
  pub record Fits (lo hi : num.Number) (b : TokenBucket num.Number) : Type 0 where
    pub floor : Le lo b.rate
    pub ceiling : Le b.rate hi
    pub burst : b.capacity ≡ greatest num (one num) b.rate
    pub full : Le b.tokens b.capacity

  pub record Paced (p : AdaptivePacer num.Number) : Type 0 where
    pub fits : Fits p.min_rate p.max_rate p.bucket
    pub positive : Le (nought num) p.min_rate
    pub backoff : p.backoff ≡ half num
    pub recover_step : p.recover_step ≡ one num

  pub new_pacer-Paced :
      (max_rate min_rate now : num.Number)
      → Le (greatest num (tenth num) min_rate) max_rate
      → Paced (new_pacer num max_rate min_rate now)
  unfolding new_pacer
  new_pacer-Paced max_rate min_rate now h = record {
    fits = record { floor = h; ceiling = Le-refl max_rate; burst = refl; full = Le-refl _ };
    positive = ord.trans _ _ _ ord.tenth_up (greatest-above (tenth num) min_rate);
    backoff = refl;
    recover_step = refl;
  }

  capped-Fits :
      (lo hi : num.Number) (b : TokenBucket num.Number)
      → Le lo b.rate
      → Le b.rate hi
      → b.capacity ≡ greatest num (one num) b.rate
      → Fits lo hi (if num.ltb b.capacity b.tokens then record b { tokens = b.capacity } else b)
  capped-Fits lo hi b floor ceiling burst = elim (Bool-cases (num.ltb b.capacity b.tokens)) [
    | inl more ↦
        rw more
          (record { floor = floor; ceiling = ceiling; burst = burst; full = Le-refl b.capacity })
    | inr fewer ↦
        rw fewer (record { floor = floor; ceiling = ceiling; burst = burst; full = fewer })
  ]

  module _ (p : AdaptivePacer num.Number) (v : Paced p) where
    abbrev rate : num.Number
    rate = p.bucket.rate

    bounds_Le : Le p.min_rate p.max_rate
    bounds_Le = ord.trans _ _ _ v.fits.floor v.fits.ceiling

    slower_Le : Le (num.mul rate p.backoff) p.max_rate
    slower_Le =
        rw v.backoff (
          ord.trans _ _ _ (ord.halves rate (ord.trans _ _ _ v.positive v.fits.floor))
            v.fits.ceiling)

    pub slow_down-Paced : {W : Type 0} (clock : Clock num.Number W) → Paced (slow_down num clock p)
    unfolding slow_down
    slow_down-Paced clock = record {
      fits =
          capped-Fits p.min_rate p.max_rate
            (set_rate num clock (greatest num p.min_rate (num.mul rate p.backoff)) p.bucket)
            (greatest-above p.min_rate (num.mul rate p.backoff))
            (greatest-below p.min_rate (num.mul rate p.backoff) p.max_rate bounds_Le slower_Le)
            refl;
      positive = v.positive;
      backoff = v.backoff;
      recover_step = v.recover_step;
    }

    -- The rate after a recovery.
    abbrev faster : num.Number
    faster = least num p.max_rate (num.add rate p.recover_step)

    grown_Le : Le rate (num.add rate p.recover_step)
    grown_Le = rw v.recover_step (ord.grows rate)

    faster_Le : Le rate faster
    faster_Le = least-above p.max_rate (num.add rate p.recover_step) rate v.fits.ceiling grown_Le

    burst_Le : Le (greatest num (one num) rate) (greatest num (one num) faster)
    burst_Le =
        greatest-below (one num) rate _ (greatest-above (one num) faster)
          (ord.trans _ _ _ faster_Le (greatest-above_2 (one num) faster))

    faster-Fits :
        Fits p.min_rate p.max_rate
          (record (p.bucket) { rate = faster; capacity = greatest num (one num) faster })
    faster-Fits = record {
      floor = ord.trans _ _ _ v.fits.floor faster_Le;
      ceiling = least-below p.max_rate (num.add rate p.recover_step);
      burst = refl;
      full =
          ord.trans p.bucket.tokens p.bucket.capacity _ v.fits.full
            (subst (λ c. Le c (greatest num (one num) faster)) (sym v.fits.burst) burst_Le);
    }

    pub record_success-Paced : Paced (record_success num p)
    unfolding record_success
    record_success-Paced = elim (Bool-cases (num.ltb rate p.max_rate)) [
      | inr top ↦ rw top (record {
        fits = v.fits;
        positive = v.positive;
        backoff = v.backoff;
        recover_step = v.recover_step;
      })
      | inl below ↦ elim (Bool-cases (leb p.recover_after (p.successes + 1))) [
        | inr few ↦
            rw (below, few)
              (record {
                fits = v.fits;
                positive = v.positive;
                backoff = v.backoff;
                recover_step = v.recover_step;
              })
        | inl many ↦
            rw (below, many)
              (record {
                fits = faster-Fits;
                positive = v.positive;
                backoff = v.backoff;
                recover_step = v.recover_step;
              })
      ]
    ]
