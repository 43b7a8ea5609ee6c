-- ===== src/Handlers/Limits/Bounds.antt =====
-- The numbers of internal/handlers/server.go on use: windows, percentages and credit.
use be_miawai.Base.{ℕ, ◌+◌, ◌-◌, ◌*◌, ◌/◌, ◌≤◌, ◌<◌, ◌≡◌, arith, ◌⊎◌}
use be_miawai.Database.Subscriptions.{hour}
use native.Mathlib.Nat.{le-div_iff_mul-le}
use be_miawai.Handlers.Limits.{
  day, hour_of, day_of, weekday, current_five_hour_usage_window, current_weekly_usage_window,
  in_wib, from_wib, build_usage_window_status, build_usage_credit_status,
}

five_hours_start :
    (t : ℕ)
    → (day_of t * day + hour_of t / 5 * 5 * hour ≤ t)
      × (t < day_of t * day + hour_of t / 5 * 5 * hour + 5 * hour)
five_hours_start t = (omega arith, omega arith)

same_day : (t : ℕ) → day_of (day_of t * day + hour_of t / 5 * 5 * hour) ≡ day_of t
same_day t = omega arith

next_day :
    (t : ℕ)
    → ((day_of (day_of t * day + hour_of t / 5 * 5 * hour + 5 * hour) ≡ day_of t))
      ⊎ ((day_of (day_of t * day + hour_of t / 5 * 5 * hour + 5 * hour) ≡ day_of t + 1)
          × (hour_of (day_of t * day + hour_of t / 5 * 5 * hour + 5 * hour) ≡ 1)
          × ((day_of t + 1) * day ≤ day_of t * day + hour_of t / 5 * 5 * hour + 5 * hour))
next_day t = ground arith

monday : (d : ℕ) → 7 ≤ d → (weekday (d - (weekday d - 1)) ≡ 1) × (weekday d ≤ 7) × (1 ≤ weekday d)
monday d h = ground (arith, h)

five_hour_bounds :
    (now : ℕ)
    → day ≤ now
    → let (start, reset) = current_five_hour_usage_window now in
      (start ≤ now) × (now < reset) × (reset ≤ start + 5 * hour)
unfolding current_five_hour_usage_window
five_hour_bounds now h =
    let t : ℕ = in_wib now in ground (arith, five_hours_start t, same_day t, next_day t)

weekly_bounds :
    (now : ℕ)
    → 8 * day ≤ now
    → let (start, reset) = current_weekly_usage_window now in
      (start ≤ now)
      × (now < reset)
      × (reset ≡ start + 7 * day)
      × (weekday (day_of (in_wib start)) ≡ 1)
unfolding current_weekly_usage_window
weekly_bounds now h =
    let d : ℕ = day_of (in_wib now) in
    let (first, most, least) = monday d (omega arith) in
    let start : ℕ = d - (weekday d - 1) in
    let back : day_of (in_wib (from_wib (start * day))) ≡ start = omega (arith, h, most, least) in
    (
      omega (arith, h, most, least),
      omega (arith, h, most, least),
      omega (arith, h, most, least),
      rw back first,
    )

-- From the eighth day of the epoch on, the two current windows hold the instant; the short one
-- lasts five hours at most, and the long one a week from a Monday.
pub current_usage_windows_bounds :
    (now : ℕ)
    → 8 * day ≤ now
    → let (start, reset) = current_five_hour_usage_window now in
      let (week_start, week_reset) = current_weekly_usage_window now in
      ((start ≤ now) × (now < reset) × (reset ≤ start + 5 * hour))
      × ((week_start ≤ now)
          × (now < week_reset)
          × (week_reset ≡ week_start + 7 * day)
          × (weekday (day_of (in_wib week_start)) ≡ 1))
current_usage_windows_bounds now h = (five_hour_bounds now (omega arith), weekly_bounds now h)

-- A quotient of 0.
below : (x limit : ℕ) → 0 < limit → x / limit ≡ 0 → x < limit
below x limit h q = ground (arith, le-div_iff_mul-le {k = limit} {x = 1} {y = x} h, q)

-- A status shows what is left of a limit, in numbers and in percent from 0 to 100, which is 0
-- exactly where less than a hundredth is left; credit that is used and credit that remains make up
-- the initial credit, but for rounding, until it is used up.
pub build_usage_status_bounds :
    (used limit reset_at credit tokens cost : ℕ)
    → 0 < limit
    → let s = build_usage_window_status used limit reset_at in
      let c = build_usage_credit_status credit tokens cost in
      ((s.percent_left ≤ 100)
        × (used ≤ limit → used + s.remaining ≡ limit)
        × (s.percent_left ≡ 0 → s.remaining * 100 < limit))
      × (tokens * cost ≤ credit * 1000
          → (credit ≤ c.used + c.remaining) × (c.used + c.remaining ≤ credit + 1))
unfolding build_usage_window_status build_usage_credit_status
build_usage_status_bounds used limit reset_at credit tokens cost h = (
  (
    ground (arith, h),
    (λ u. ground (arith, h, u)),
    (λ p. ground (arith, h, p, below ((limit - used) * 100) limit h)),
  ),
  λ c. omega (arith, c),
)
