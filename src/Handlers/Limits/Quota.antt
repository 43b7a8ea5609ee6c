-- ===== src/Handlers/Limits/Quota.antt =====
-- The check before an answer (`checkUserQuota` of internal/handlers/whatsapp.go).
use be_miawai.Base.{ℕ, ◌+◌, ◌≤◌, ◌<◌, ◌≡◌, Bool, false, arith}
use be_miawai.Models.{User}
use be_miawai.Database.World.{World, Calm, ok}
use be_miawai.Database.Usage.{
  get_daily_usage, day_or_none, find_day, daily_usage_date, get_usage_window,
}
use be_miawai.Handlers.Limits.{
  LimitConfig, is_pro, daily_prompt_limit_for_user, daily_image_limit_for_user, check_user_quota,
  has_remaining_weekly_usage_credit,
}
use be_miawai.Database.Payments.{get_settled_credit_purchase_usd}

-- Where no statement fails and the check lets an answer pass: it allows web research exactly to
-- pro users, others asked for none, and the day's prompts are below the plan's limit, and its
-- images with the message's within theirs, where there is a limit.
pub check_user_quota_sound :
    (cfg : LimitConfig) (user : User) (images : ℕ) (web_requested : Bool) (w : World) {web : Bool}
    → Calm w
    → (check_user_quota cfg user images web_requested w).0 ≡ ok web
    → let d =
        day_or_none user.id
          (daily_usage_date w.now)
          (find_day user.id (daily_usage_date w.now) w.daily_usage) in
      (web ≡ is_pro user)
      × (is_pro user ≡ false → web_requested ≡ false)
      × (0 < daily_prompt_limit_for_user cfg user
          → d.prompt_count < daily_prompt_limit_for_user cfg user)
      × (0 < daily_image_limit_for_user cfg user
          → d.image_count + images ≤ daily_image_limit_for_user cfg user)
unfolding check_user_quota has_remaining_weekly_usage_credit get_daily_usage
    get_settled_credit_purchase_usd get_usage_window
check_user_quota_sound cfg user images web_requested w c h = ground (arith, c, h)
