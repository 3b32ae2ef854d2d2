-- ===== src/Retry/Backoff.antt =====
-- `full_jitter_delay`: exponential backoff with full jitter.
use gdrive_turbo_copy.Prelude.{ℕ, ◌-◌, ◌^◌}
use gdrive_turbo_copy.Prelude.Int.{Float, min_float, scale_float}

-- `min(cap, base * (2 ** max(0, attempt - 1)))`; the subtraction stops at 0.
unfoldable pub delay_ceiling : Float → Float → ℕ → Float
delay_ceiling base cap attempt = min_float cap (scale_float (2 ^ (attempt - 1)) base)

-- `rng.uniform(0, exp)`, where the random generator draws from the world.
unfoldable pub full_jitter_delay :
    {W : Type 0} → (Float → W → Float × W) → Float → Float → ℕ → W → Float × W
unfolding delay_ceiling
full_jitter_delay uniform base cap attempt w = uniform (delay_ceiling base cap attempt) w
