-- ===== src/Handlers/Limits.antt =====
-- The limits on use in internal/handlers: what a plan may use (server.go), the windows of use, and
-- the check before an answer (whatsapp.go). An amount of dollars is a number of millionths.
pub mod Bounds
pub mod Quota
use be_miawai.Base.{
  ℕ, ◌+◌, ◌-◌, ◌*◌, ◌/◌, ◌%◌, Bool, true, false, not, ◌&&◌, ◌||◌, Text, text_eq, codes, ltb, leb,
  ◌==◌, one_of, [], ◌∷◌, if◌then◌else◌,
}
use be_miawai.Base.Strings.{folded}
use be_miawai.Models.{User, UserDailyUsage}
use be_miawai.Database.World.{
  World, M, Query, Result, Error, ok, err, pure, raise, raise_if, gets, ◌>>=◌, ◌>>◌,
}
use be_miawai.Database.Subscriptions.{hour}
use be_miawai.Database.Payments.{get_settled_credit_purchase_usd}
use be_miawai.Database.Usage.{get_daily_usage, get_usage_window}

-- The limits of `config.Config`; 0 is none.
pub record LimitConfig : Type 0 where
  pub free_user_daily_prompt_limit : ℕ
  pub pro_user_daily_prompt_limit : ℕ
  pub free_user_daily_image_limit : ℕ
  pub pro_user_daily_image_limit : ℕ
  pub free_user_daily_web_research_limit : ℕ
  pub pro_user_daily_web_research_limit : ℕ
  pub free_user_five_hour_token_limit : ℕ
  pub pro_user_five_hour_token_limit : ℕ
  pub free_user_weekly_token_limit : ℕ
  pub pro_user_weekly_token_limit : ℕ
  pub free_user_included_credit_usd : ℕ
  pub pro_user_included_credit_usd : ℕ
  pub ai_cost_usd_per_1k_tokens : ℕ

abbrev pub is_pro : User → Bool
is_pro user = text_eq user.plan (codes "pro")

abbrev pub daily_prompt_limit_for_user : LimitConfig → User → ℕ
daily_prompt_limit_for_user cfg user =
    if is_pro user then cfg.pro_user_daily_prompt_limit else cfg.free_user_daily_prompt_limit

abbrev pub daily_image_limit_for_user : LimitConfig → User → ℕ
daily_image_limit_for_user cfg user =
    if is_pro user then cfg.pro_user_daily_image_limit else cfg.free_user_daily_image_limit

abbrev pub daily_research_limit_for_user : LimitConfig → User → ℕ
daily_research_limit_for_user cfg user =
    if is_pro user
    then cfg.pro_user_daily_web_research_limit
    else cfg.free_user_daily_web_research_limit

abbrev pub periodic_token_limit_for_user : LimitConfig → User → Text → ℕ
periodic_token_limit_for_user cfg user window =
    if is_pro user
    then (if text_eq window (codes "week")
        then cfg.pro_user_weekly_token_limit
        else cfg.pro_user_five_hour_token_limit)
    else if text_eq window (codes "week")
    then cfg.free_user_weekly_token_limit
    else cfg.free_user_five_hour_token_limit

abbrev pub included_credit_usd_for_user : LimitConfig → User → ℕ
included_credit_usd_for_user cfg user =
    if is_pro user then cfg.pro_user_included_credit_usd else cfg.free_user_included_credit_usd

-- `usageWindowStatus`, less its labels.
pub record UsageWindowStatus : Type 0 where
  pub used : ℕ
  pub limit : ℕ
  pub remaining : ℕ
  pub percent_left : ℕ
  pub reset_at : ℕ

abbrev pub smaller : ℕ → ℕ → ℕ
smaller a b = if leb a b then a else b

-- `buildUsageWindowStatus`; the subtraction stops at 0, as `max(0, …)` does.
unfoldable pub build_usage_window_status : ℕ → ℕ → ℕ → UsageWindowStatus
build_usage_window_status used limit reset_at = record {
  used = used;
  limit = limit;
  remaining = if ltb 0 limit then limit - used else 0;
  percent_left = if ltb 0 limit then smaller 100 ((limit - used) * 100 / limit) else 100;
  reset_at = reset_at;
}

-- `usageCreditStatus`
pub record UsageCreditStatus : Type 0 where
  pub initial : ℕ
  pub used : ℕ
  pub remaining : ℕ

-- `buildUsageCreditStatus`: the cost is a number of thousandths of a millionth, and is rounded.
unfoldable pub build_usage_credit_status : ℕ → ℕ → ℕ → UsageCreditStatus
build_usage_credit_status initial_credit used_tokens cost_per_1k = record {
  initial = initial_credit;
  used = (used_tokens * cost_per_1k + 500) / 1000;
  remaining = (initial_credit * 1000 - used_tokens * cost_per_1k + 500) / 1000;
}

abbrev pub day : ℕ
day = 24 * hour

-- Seven hours ahead of UTC, `wibLocation`.
abbrev pub in_wib : ℕ → ℕ
in_wib t = t + 7 * hour

abbrev pub from_wib : ℕ → ℕ
from_wib t = t - 7 * hour

abbrev pub day_of : ℕ → ℕ
day_of t = t / day

abbrev pub hour_of : ℕ → ℕ
hour_of t = t % day / hour

-- `nextDailyReset`, of an instant in WIB.
abbrev pub next_daily_reset : ℕ → ℕ
next_daily_reset t = (day_of t + 1) * day

-- `currentFiveHourUsageWindow`: from when and until when.
unfoldable pub current_five_hour_usage_window : ℕ → ℕ × ℕ
current_five_hour_usage_window now =
    let t = in_wib now in
    let start = day_of t * day + hour_of t / 5 * 5 * hour in
    let reset = start + 5 * hour in
    (
      from_wib start,
      from_wib (
          if not (day_of reset == day_of start) && not (hour_of reset == 0)
          then next_daily_reset t
          else reset),
    )

-- The day of the week, from Monday as 1 to Sunday as 7; the epoch was a Thursday.
abbrev pub weekday : ℕ → ℕ
weekday d = if (d + 4) % 7 == 0 then 7 else (d + 4) % 7

-- `currentWeeklyUsageWindow`
unfoldable pub current_weekly_usage_window : ℕ → ℕ × ℕ
current_weekly_usage_window now =
    let today = day_of (in_wib now) in
    let start_day = today - (weekday today - 1) in
    (from_wib (start_day * day), from_wib ((start_day + 7) * day))

-- `hasRemainingWeeklyUsageCredit`
unfoldable pub has_remaining_weekly_usage_credit : LimitConfig → User → Query Bool
unfolding current_weekly_usage_window build_usage_credit_status
has_remaining_weekly_usage_credit cfg user = do
  purchased ← get_settled_credit_purchase_usd user.id
  let total = included_credit_usd_for_user cfg user + purchased * 1000000
  if total == 0 || cfg.ai_cost_usd_per_1k_tokens == 0 then pure true else do
    now ← gets (λ w. w.now)
    weekly ← get_usage_window user.id (current_weekly_usage_window now).0
    pure (
        ltb 0
          (build_usage_credit_status total (weekly.token_input + weekly.token_output)
            cfg.ai_cost_usd_per_1k_tokens).remaining)

-- Why an answer is refused.
pub data QuotaError : Type 0 where
  credit_exhausted prompt_limit image_limit pro_only research_limit : QuotaError
  query_failed : Error → QuotaError

abbrev pub mapped : {A : Type 0} → Result Error A × World → Result QuotaError A × World
mapped (ok a, w) = (ok a, w)
mapped (err e, w) = (err (query_failed e), w)

abbrev pub querying : {A : Type 0} → Query A → M QuotaError A
querying m w = mapped (m w)

-- `limit > 0 && used >= limit`
abbrev pub is_reached : ℕ → ℕ → Bool
is_reached limit used = ltb 0 limit && leb limit used

-- `limit > 0 && used > limit`
abbrev pub is_passed : ℕ → ℕ → Bool
is_passed limit used = ltb 0 limit && ltb limit used

abbrev pub check_free : LimitConfig → UserDailyUsage → ℕ → Bool → M QuotaError Bool
check_free cfg usage image_count web_requested = do
  raise_if (is_reached cfg.free_user_daily_prompt_limit usage.prompt_count) prompt_limit
  raise_if (is_passed cfg.free_user_daily_image_limit (usage.image_count + image_count)) image_limit
  raise_if web_requested pro_only
  pure false

abbrev pub check_pro : LimitConfig → UserDailyUsage → ℕ → M QuotaError Bool
check_pro cfg usage image_count = do
  raise_if (is_reached cfg.pro_user_daily_prompt_limit usage.prompt_count) prompt_limit
  raise_if (is_passed cfg.pro_user_daily_image_limit (usage.image_count + image_count)) image_limit
  raise_if (is_reached cfg.pro_user_daily_web_research_limit usage.research_count) research_limit
  pure true

-- `checkUserQuota`: whether web research is allowed, where an answer is.
unfoldable pub check_user_quota : LimitConfig → User → ℕ → Bool → M QuotaError Bool
unfolding has_remaining_weekly_usage_credit get_daily_usage
check_user_quota cfg user image_count web_requested = do
  has_credit ← querying (has_remaining_weekly_usage_credit cfg user)
  raise_if (not has_credit) credit_exhausted
  usage ← querying (get_daily_usage user.id)
  if not (is_pro user)
      then check_free cfg usage image_count web_requested
      else check_pro cfg usage image_count

-- `isStatusCommand`
unfoldable pub is_status_command : Text → Bool
is_status_command message =
    one_of (folded message) (codes "/status" ∷ codes "status" ∷ codes "/usage" ∷ codes "usage" ∷ [])
