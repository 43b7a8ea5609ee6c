-- ===== src/Handlers/Calendar.antt =====
-- Go's `time.AddDate` in UTC, as `subscriptionPeriodEnd` of internal/handlers/server.go and
-- `VerifyPurchaseToken` of internal/payment/googleplay.go use it.
use be_miawai.Base.{
  ℕ, ◌+◌, ◌-◌, ◌*◌, ◌/◌, ◌%◌, ◌≤◌, Bool, ◌&&◌, ◌||◌, not, leb, ◌==◌, Text, codes, text_eq,
  if◌then◌else◌, arith,
}
use be_miawai.Database.Subscriptions.{hour}

abbrev pub day : ℕ
day = 24 * hour

-- A date of the proleptic Gregorian calendar.
pub record Date : Type 0 where
  pub year : ℕ
  pub month : ℕ

-- The year and the month in which a day after 1970-01-01 lies. The year of the count begins in
-- March, so that the leap day is its last.
abbrev pub date_in : ℕ → ℕ → Date
date_in year mp =
    if leb mp 9
    then record { year = year; month = mp + 3 }
    else record { year = year + 1; month = mp - 9 }

unfoldable pub date_of : ℕ → Date
date_of days =
    let z = days + 719468 in
    let doe = z % 146097 in
    let yoe = (doe - doe / 1460 + doe / 36524 - doe / 146096) / 365 in
    let doy = doe - (365 * yoe + yoe / 4 - yoe / 100) in
    date_in (yoe + z / 146097 * 400) ((5 * doy + 2) / 153)

unfoldable pub is_leap : ℕ → Bool
is_leap year = year % 4 == 0 && (not (year % 100 == 0) || year % 400 == 0)

unfoldable pub days_in_month : Date → ℕ
days_in_month d =
    if d.month == 2
    then (if is_leap d.year then 29 else 28)
    else if d.month == 4 || d.month == 6 || d.month == 9 || d.month == 11
    then 30
    else 31

-- The days from a month to the same month of the next year.
unfoldable pub days_in_year : Date → ℕ
days_in_year d = if is_leap (if leb d.month 2 then d.year else d.year + 1) then 366 else 365

-- `t.AddDate(0, 1, 0)`: the day of the month stays, and a day that the next month does not have
-- runs over into the month behind it; either way the days of this month are added.
unfoldable pub add_month : ℕ → ℕ
add_month t = t + days_in_month (date_of (t / day)) * day

-- `t.AddDate(1, 0, 0)`
unfoldable pub add_year : ℕ → ℕ
add_year t = t + days_in_year (date_of (t / day)) * day

abbrev pub yearly_product : Text
yearly_product = codes "miaw_pro_yearly_idr_590000"

abbrev pub monthly_product : Text
monthly_product = codes "miaw_pro_monthly_idr_59000"

-- `subscriptionPeriodEnd`, at the instant `now`
unfoldable pub subscription_period_end : ℕ → Text → ℕ
subscription_period_end now product_id =
    if text_eq product_id yearly_product then add_year now else add_month now

days_in_month_bounds : (d : Date) → (28 ≤ days_in_month d) × (days_in_month d ≤ 31)
unfolding days_in_month
days_in_month_bounds d = (ground arith, ground arith)

days_in_year_bounds : (d : Date) → (365 ≤ days_in_year d) × (days_in_year d ≤ 366)
unfolding days_in_year
days_in_year_bounds d = (ground arith, ground arith)

-- A paid period ends at least 28 and at most 366 days after it begins.
pub subscription_period_end_bounds :
    (now : ℕ) (product_id : Text)
    → (now + 28 * day ≤ subscription_period_end now product_id)
      × (subscription_period_end now product_id ≤ now + 366 * day)
unfolding subscription_period_end add_month add_year
subscription_period_end_bounds now product_id = (
  ground (
    arith,
    days_in_month_bounds (date_of (now / day)),
    days_in_year_bounds (date_of (now / day)),
  ),
  ground (
    arith,
    days_in_month_bounds (date_of (now / day)),
    days_in_year_bounds (date_of (now / day)),
  ),
)
