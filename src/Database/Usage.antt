-- ===== src/Database/Usage.antt =====
-- The usage counters of internal/database/payment_store.go.
pub mod Window
use be_miawai.Base.{
  ℕ, ◌+◌, ◌*◌, ◌/◌, List, [], ◌∷◌, Option, none, some, Bool, not, ◌&&◌, Text, codes, text_eq, leb,
  ltb, ◌==◌, if◌then◌else◌,
}
use be_miawai.Models.{UserDailyUsage, UsageWindow}
use be_miawai.Database.World.{
  World, Query, UsageEvent, ok, err, pure, gets, modify, ◌>>=◌, ◌>>◌, statement, transaction,
  new_id,
}
use be_miawai.Database.Subscriptions.{hour}

-- `dailyUsageDate`: the day, seven hours ahead of UTC.
unfoldable pub daily_usage_date : ℕ → ℕ
daily_usage_date now = (now + 7 * hour) / (24 * hour)

abbrev pub is_day : Text → ℕ → UserDailyUsage → Bool
is_day user_id date d = text_eq d.user_id user_id && d.usage_date == date

unfoldable pub find_day : Text → ℕ → List UserDailyUsage → Option UserDailyUsage
find_day user_id date [] = none
find_day user_id date (d ∷ ds) = if is_day user_id date d then some d else find_day user_id date ds

-- The row that a first use of the day inserts, and that a later one adds to the row there is.
abbrev pub first_use : Text → ℕ → ℕ → ℕ → ℕ → ℕ → UserDailyUsage
first_use user_id date tokens_in tokens_out images researches = record {
  user_id = user_id;
  usage_date = date;
  prompt_count = 1;
  image_count = images;
  research_count = researches;
  token_input = tokens_in;
  token_output = tokens_out;
}

abbrev pub add_use : UserDailyUsage → UserDailyUsage → UserDailyUsage
add_use n d = record d {
  prompt_count = d.prompt_count + 1;
  image_count = d.image_count + n.image_count;
  research_count = d.research_count + n.research_count;
  token_input = d.token_input + n.token_input;
  token_output = d.token_output + n.token_output;
}

-- `INSERT … ON CONFLICT (user_id, usage_date) DO UPDATE`
unfoldable pub upsert_day : UserDailyUsage → List UserDailyUsage → List UserDailyUsage
upsert_day n [] = n ∷ []
upsert_day n (d ∷ ds) =
    let rest = upsert_day n ds in
    if is_day n.user_id n.usage_date d then add_use n d ∷ ds else d ∷ rest

unfoldable pub increment_daily_usage : Text → ℕ → ℕ → ℕ → ℕ → Query (Unit {0})
unfolding upsert_day daily_usage_date
increment_daily_usage user_id tokens_in tokens_out images researches = transaction do
  now ← gets (λ w. w.now)
  statement
  modify (λ w. record w {
    daily_usage =
        upsert_day (first_use user_id (daily_usage_date now) tokens_in tokens_out images researches)
          w.daily_usage;
  })
  id ← new_id (codes "use")
  statement
  modify (λ w. record w {
    usage_events =
        record {
          id = id;
          user_id = user_id;
          token_input = tokens_in;
          token_output = tokens_out;
          image_count = images;
          research_count = researches;
          created_at = now;
        }
        ∷ w.usage_events;
  })

abbrev pub day_or_none : Text → ℕ → Option UserDailyUsage → UserDailyUsage
day_or_none user_id date (some d) = d
day_or_none user_id date none = record (first_use user_id date 0 0 0 0) { prompt_count = 0 }

unfoldable pub get_daily_usage : Text → Query UserDailyUsage
unfolding find_day daily_usage_date
get_daily_usage user_id = do
  now ← gets (λ w. w.now)
  statement
  gets (λ w.
      day_or_none user_id (daily_usage_date now)
        (find_day user_id (daily_usage_date now) w.daily_usage))

abbrev pub no_use : UsageWindow
no_use = record {
  prompt_count = 0;
  image_count = 0;
  research_count = 0;
  token_input = 0;
  token_output = 0;
}

abbrev pub count_event : UsageEvent → UsageWindow → UsageWindow
count_event e u = record {
  prompt_count = u.prompt_count + 1;
  image_count = u.image_count + e.image_count;
  research_count = u.research_count + e.research_count;
  token_input = u.token_input + e.token_input;
  token_output = u.token_output + e.token_output;
}

-- `COUNT(*), SUM(…) … WHERE user_id = $1 AND created_at >= $2`
unfoldable pub window_of : Text → ℕ → List UsageEvent → UsageWindow
window_of user_id since [] = no_use
window_of user_id since (e ∷ es) =
    let rest = window_of user_id since es in
    if text_eq e.user_id user_id && leb since e.created_at then count_event e rest else rest

unfoldable pub get_usage_window : Text → ℕ → Query UsageWindow
unfolding window_of
get_usage_window user_id since = do statement; gets (λ w. window_of user_id since w.usage_events)
