-- ===== src/Handlers/Status.antt =====
-- What a user is shown first, and of the use so far, in internal/handlers/server.go.
use be_miawai.Base.{
  [], ◌∷◌, ◌+◌, ◌*◌, true, false, ◌&&◌, Text, Bool, Option, ℕ, codes, List, if◌then◌else◌, text_eq,
}
use be_miawai.Database.World.{◌>>=◌, ok, err, Result, Error, World, pure, gets}
use be_miawai.Models.{RuntimeSettings, User, UsageWindow, Conversation}
use be_miawai.Handlers.Settings.{
  first_non_empty, ProviderConfig, load_runtime_settings, apply_runtime_defaults,
}
use be_miawai.Base.Strings.{to_lower}
use be_miawai.Handlers.Reply.{Reply, Handler, reply, from_store}
use be_miawai.Handlers.Limits.{
  LimitConfig, UsageWindowStatus, UsageCreditStatus, current_five_hour_usage_window,
  current_weekly_usage_window, build_usage_window_status, periodic_token_limit_for_user,
  build_usage_credit_status, included_credit_usd_for_user,
}
use be_miawai.Handlers.Access.{has_access}
use be_miawai.Database.Usage.{get_usage_window}
use be_miawai.Database.Conversations.{list_conversations_by_user}
use be_miawai.Database.Payments.{get_settled_credit_purchase_usd}

abbrev pub no_settings : RuntimeSettings
no_settings = record {
  provider = [];
  base_url = [];
  api_key = [];
  system_prompt = [];
  models = record { active = []; all = [] };
}

-- `usageStatusResponse`, with the two windows by name.
pub record UsageStatusResponse : Type 0 where
  pub plan : Text
  pub subscription : Text
  pub entitled_until : Option ℕ
  pub model : Text
  pub provider : Text
  pub email : Text
  pub five_hours : UsageWindowStatus
  pub week : UsageWindowStatus
  pub credits : UsageCreditStatus

-- `settings, _ :=`: the settings, or what comes with the error.
abbrev pub or_no_settings :
    Result Error RuntimeSettings × World → Result Reply RuntimeSettings × World
or_no_settings (ok s, w) = (ok s, w)
or_no_settings (err e, w) = (ok no_settings, w)

abbrev pub shown_plan : User → Text
shown_plan user =
    let plan = to_lower (first_non_empty (user.plan ∷ codes "free" ∷ [])) in
    if text_eq plan (codes "pro") && text_eq user.subscription_status (codes "trialing")
    then codes "pro_trial"
    else plan

abbrev pub usage_failed : Error → Reply
usage_failed e = reply 500 "failed to load usage status"

abbrev pub tokens_of : UsageWindow → ℕ
tokens_of usage = usage.token_input + usage.token_output

unfoldable pub usage_status : ProviderConfig → LimitConfig → User → Handler UsageStatusResponse
unfolding first_non_empty
usage_status providers cfg user = do
  loaded ← λ w. or_no_settings (load_runtime_settings providers user.id w)
  let settings = apply_runtime_defaults loaded
  now ← gets (λ w. w.now)
  five_hour_usage ←
      from_store usage_failed (get_usage_window user.id (current_five_hour_usage_window now).0)
  weekly_usage ←
      from_store usage_failed (get_usage_window user.id (current_weekly_usage_window now).0)
  purchased ← from_store usage_failed (get_settled_credit_purchase_usd user.id)
  pure (record {
    plan = shown_plan user;
    subscription = user.subscription_status;
    entitled_until = user.entitled_until;
    model = settings.models.active;
    provider = settings.provider;
    email = user.email;
    five_hours =
        build_usage_window_status (tokens_of five_hour_usage)
          (periodic_token_limit_for_user cfg user (codes "5h"))
          (current_five_hour_usage_window now).1;
    week =
        build_usage_window_status (tokens_of weekly_usage)
          (periodic_token_limit_for_user cfg user (codes "week"))
          (current_weekly_usage_window now).1;
    credits =
        build_usage_credit_status (included_credit_usd_for_user cfg user + purchased * 1000000)
          (tokens_of weekly_usage) cfg.ai_cost_usd_per_1k_tokens;
  })

abbrev pub when_allowed : {A : Type 0} → Bool → A → Handler A → Handler A
when_allowed true otherwise m = m
when_allowed false otherwise m = pure otherwise

-- `bootstrap`: the settings and the conversations, each where the user may read them.
unfoldable pub bootstrap : ProviderConfig → User → Handler (RuntimeSettings × List Conversation)
bootstrap providers user = do
  settings ← when_allowed (has_access user (codes "runtime:read")) no_settings (
      from_store (λ e. reply 500 "failed to load runtime settings")
        (load_runtime_settings providers user.id))
  conversations ← when_allowed (has_access user (codes "conversations:read")) [] (
      from_store (λ e. reply 500 "failed to load conversations")
        (list_conversations_by_user user.id))
  pure (settings, conversations)
