-- ===== src/MetaEvents/Backoff.antt =====
-- apps/worker/src/metaEvents/backoff.ts: the retry schedule and the attempt budget.
use ai_client_acquisition_os.Common.{
  ℕ, zero, suc, ◌+◌, ◌-◌, ◌*◌, ◌/◌, ◌≤◌, ◌<◌, ◌≡◌, refl, Bool, List, [], ◌∷◌, arith, ltb, leb, ◌==◌,
  if◌then◌else◌, length, get_elem?, or_else, min, Bool-cases, inl, inr,
}
use ai_client_acquisition_os.Common.Int.{ℤ, pos, pos_part, neg_part}

abbrev pub default_max_attempts : ℤ
default_max_attempts = pos 5

abbrev pub max_configurable_attempts : ℕ
max_configurable_attempts = 20

abbrev pub lease_duration_ms : ℤ
lease_duration_ms = pos 300000

abbrev pub retry_cap_ms : List ℕ
retry_cap_ms = 0 ∷ 60000 ∷ 300000 ∷ 900000 ∷ 3600000 ∷ []

-- What one call of a `RandomSource` returns: the fraction `num / (den_pred + 1)`.
pub record Draw : Type 0 where
  pub num : ℤ
  pub den_pred : ℕ

-- The cap for a post-increment attempt count; the last entry serves all later ones.
unfoldable pub cap_for : ℕ → ℕ
cap_for attempts = or_else (get_elem? retry_cap_ms (min attempts (length retry_cap_ms - 1))) 0

-- `Math.floor(Math.min(Math.max(draw, 0), 0.999_999_999) * cap)`.
unfoldable pub scale : Draw → ℕ → ℕ
scale draw cap =
    let n = pos_part draw.num in
    let d = suc draw.den_pred in
    if ltb (d * 999999999) (n * 1000000000) then 999999999 * cap / 1000000000 else n * cap / d

unfoldable pub compute_retry_delay_ms : ℕ → Draw → ℕ
compute_retry_delay_ms attempts draw =
    let cap = cap_for attempts in if cap == 0 then 0 else scale draw cap

-- `attempts >= maxAttempts`.
unfoldable pub has_exhausted_attempts : ℕ → ℤ → Bool
has_exhausted_attempts attempts max_attempts =
    leb (pos_part max_attempts) (attempts + neg_part max_attempts)

-- a / d < c where a < c * d.
div-lt : (a c d : ℕ) → a < c * suc d → a / suc d < c
div-lt a c d h = grind arith

mul-lt : (n d cap : ℕ) → n < d → 0 < cap → n * cap < cap * d
mul-lt n d cap h k = grind arith

scale-lt : (draw : Draw) (cap : ℕ) → 0 < cap → scale draw cap < cap
unfolding scale
scale-lt draw cap h =
    let n = pos_part draw.num in
    let d = draw.den_pred in
    elim (Bool-cases (ltb (suc d * 999999999) (n * 1000000000))) [
      | inl big ↦ rw big (omega arith)
      | inr small ↦
          let below : n < suc d = ground arith in
          rw small (div-lt (n * cap) cap d (mul-lt n (suc d) cap below h))
    ]

-- From the fourth failure on the cap is an hour.
cap_for_late : (n : ℕ) → 4 ≤ n → cap_for n ≡ 3600000
unfolding cap_for
cap_for_late n h = let e : min n 4 ≡ 4 = omega arith in rw e

pub cap_for_pos : (attempts : ℕ) → 0 < cap_for (suc attempts)
unfolding cap_for
cap_for_pos zero = omega arith
cap_for_pos (suc zero) = omega arith
cap_for_pos (suc (suc zero)) = omega arith
cap_for_pos (suc (suc (suc n))) =
    omega (arith, cap_for_late (suc (suc (suc (suc n)))) (omega arith))

-- The waits widen, and never past an hour.
pub cap_for_mono :
    (attempts : ℕ) → (cap_for attempts ≤ cap_for (suc attempts)) × (cap_for attempts ≤ 3600000)
unfolding cap_for
cap_for_mono zero = (omega arith, omega arith)
cap_for_mono (suc zero) = (omega arith, omega arith)
cap_for_mono (suc (suc zero)) = (omega arith, omega arith)
cap_for_mono (suc (suc (suc zero))) = (omega arith, omega arith)
cap_for_mono (suc (suc (suc (suc n)))) =
    let m = suc (suc (suc (suc n))) in
    let here = cap_for_late m (omega arith) in
    let next = cap_for_late (suc m) (omega arith) in
    (omega (arith, here, next), omega (arith, here))

-- Whatever the random source returns, a retry waits less than its cap, and a first delivery not
-- at all.
pub compute_retry_delay_ms_bounds :
    (attempts : ℕ) (draw : Draw)
    → (compute_retry_delay_ms 0 draw ≡ 0)
      × (compute_retry_delay_ms (suc attempts) draw < cap_for (suc attempts))
unfolding compute_retry_delay_ms
compute_retry_delay_ms_bounds attempts draw = (
  unfold cap_for in refl,
  ground (arith, cap_for_pos attempts, scale-lt draw (cap_for (suc attempts))),
)
