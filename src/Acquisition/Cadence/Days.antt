-- ===== src/Acquisition/Cadence/Days.antt =====
-- packages/core-acquisition/src/cadence.ts: the days that `addBusinessDays` counts.
use ai_client_acquisition_os.Common.{
  ℕ, zero, suc, ◌+◌, ◌-◌, ◌*◌, ◌%◌, ◌≤◌, ◌≡◌, refl, true, false, Option, some, ◌==◌, if◌then◌else◌,
  arith, Bool-cases, inl, inr,
}
use ai_client_acquisition_os.Acquisition.Cadence.{
  day_ms, utc_day, is_weekend, add_business_days_loop, add_business_days,
}

-- How many of the `n` days after `time` are business days.
abbrev pub business_days : ℕ → ℕ → ℕ
business_days time zero = 0
business_days time (suc n) =
    (if is_weekend (time + day_ms) then 0 else 1) + business_days (time + day_ms) n

-- The days up to the next business day.
abbrev gap : ℕ → ℕ
gap time = if utc_day time == 5 then 3 else if utc_day time == 6 then 2 else 1

utc_day-next : (time : ℕ) → utc_day (time + day_ms) ≡ (utc_day time + 1) % 7
utc_day-next time = omega arith

gap_weekend : (time : ℕ) → is_weekend (time + day_ms) ≡ true → gap (time + day_ms) + 1 ≡ gap time
gap_weekend time h = ground (arith, utc_day-next time)

gap_le : (time : ℕ) → (1 ≤ gap time) × (gap time ≤ 3)
gap_le time = ground arith

-- What the loop needs to finish.
abbrev rounds : ℕ → ℕ → ℕ
rounds time zero = 1
rounds time (suc remaining) = 3 * remaining + gap time + 1

rounds_weekend :
    (time remaining : ℕ)
    → is_weekend (time + day_ms) ≡ true
    → rounds (time + day_ms) (suc remaining) + 1 ≡ rounds time (suc remaining)
rounds_weekend time remaining h = omega (arith, gap_weekend time h)

rounds_business :
    (time remaining : ℕ) → rounds (time + day_ms) remaining + 1 ≤ rounds time (suc remaining)
rounds_business time zero = omega (arith, gap_le time)
rounds_business time (suc remaining) = omega (arith, gap_le time, gap_le (time + day_ms))

-- The loop stops on a business day, having counted as many as were asked for.
abbrev Counted : ℕ → ℕ → ℕ → Type 0
Counted time days end =
    (n : ℕ) × (end ≡ time + n * day_ms)
    × (business_days time n ≡ days)
    × (n + 1 ≤ rounds time days)
    × (1 ≤ days → is_weekend end ≡ false)

abbrev Finishes : ℕ → ℕ → Option ℕ → Type 0
Finishes time days result = (end : ℕ) × (result ≡ some end) × Counted time days end

weekend_first :
    (time days : ℕ) (result : Option ℕ)
    → is_weekend (time + day_ms) ≡ true
    → Finishes (time + day_ms) (suc days) result
    → Finishes time (suc days) result
weekend_first time days result h (end, e, (n, there, counted, few, ends)) = (
  end,
  e,
  (suc n, omega (arith, there), ground arith, omega (arith, few, rounds_weekend time days h), ends),
)

business_first :
    (time days : ℕ) (result : Option ℕ)
    → is_weekend (time + day_ms) ≡ false
    → Finishes (time + day_ms) days result
    → Finishes time (suc days) result
business_first time zero result h (end, e, (n, there, counted, few, ends)) =
    let none_left : n ≡ 0 = omega (arith, few) in
    let day : end ≡ time + day_ms = omega (arith, there, none_left) in
    (end, e, (1, omega (arith, day), ground arith, omega (arith, gap_le time), λ _. rw day h))
business_first time (suc days) result h (end, e, (n, there, counted, few, ends)) = (
  end,
  e,
  (
    suc n,
    omega (arith, there),
    ground arith,
    omega (arith, few, rounds_business time (suc days)),
    λ _. ends (omega arith),
  ),
)

loop_weekend :
    (fuel time days : ℕ)
    → is_weekend (time + day_ms) ≡ true
    → add_business_days_loop (suc fuel) time (suc days)
      ≡ add_business_days_loop fuel (time + day_ms) (suc days)
unfolding add_business_days_loop
loop_weekend fuel time days w = ground arith

loop_business :
    (fuel time days : ℕ)
    → is_weekend (time + day_ms) ≡ false
    → add_business_days_loop (suc fuel) time (suc days)
      ≡ add_business_days_loop fuel (time + day_ms) days
unfolding add_business_days_loop
loop_business fuel time days b = let e : suc days - 1 ≡ days = omega arith in ground arith

loop-Finishes :
    (fuel time days : ℕ)
    → rounds time days ≤ fuel
    → Finishes time days (add_business_days_loop fuel time days)
unfolding add_business_days_loop
loop-Finishes zero time zero h = absurd (omega arith)
loop-Finishes zero time (suc days) h = absurd (omega arith)
loop-Finishes (suc fuel) time zero h =
    (time, refl, (0, omega arith, refl, omega arith, λ p. absurd (omega (arith, p))))
loop-Finishes (suc fuel) time (suc days) h = elim (Bool-cases (is_weekend (time + day_ms))) [
  | inl w ↦ rw (loop_weekend fuel time days w) (
      weekend_first time days _ w
        (loop-Finishes fuel (time + day_ms) (suc days) (omega (arith, rounds_weekend time days w))))
  | inr b ↦ rw (loop_business fuel time days b) (
      business_first time days _ b
        (loop-Finishes fuel (time + day_ms) days (omega (arith, rounds_business time days))))
]

rounds_enough : (time days : ℕ) → rounds time days ≤ 3 * days + 1
rounds_enough time zero = omega arith
rounds_enough time (suc days) = omega (arith, gap_le time)

-- `addBusinessDays` returns, whatever the date and the count: a whole number of days later, the
-- days passed being exactly `days` business days and at most three times as many days in all, and
-- on a business day unless no day was asked for.
pub add_business_days_counts :
    (from days : ℕ)
    → (end n : ℕ) × (add_business_days from days ≡ some end)
      × (end ≡ from + n * day_ms)
      × (business_days from n ≡ days)
      × (n ≤ 3 * days)
      × (1 ≤ days → is_weekend end ≡ false)
unfolding add_business_days
add_business_days_counts from days =
    let (end, e, (n, there, counted, few, ends)) =
      loop-Finishes (3 * days + 1) from days (rounds_enough from days) in
    (end, n, e, there, counted, omega (arith, few, rounds_enough from days), ends)
