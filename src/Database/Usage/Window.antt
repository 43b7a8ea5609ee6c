-- ===== src/Database/Usage/Window.antt =====
-- What recording a use adds to the counters (internal/database/payment_store.go).
use be_miawai.Base.{[], none, some, ℕ, ◌+◌, ◌≡◌, ◌≤◌, arith, text_eq_refl, Text, List, ◌∷◌}
use be_miawai.Database.Usage.{
  increment_daily_usage, get_usage_window, get_daily_usage, window_of, upsert_day, find_day,
  daily_usage_date, add_use, first_use, day_or_none,
}
use be_miawai.Models.{UsageWindow, UserDailyUsage}
use be_miawai.Database.World.{World, Calm, ok}

-- The use that is recorded, as the window counts it.
abbrev pub one_more : ℕ → ℕ → ℕ → ℕ → UsageWindow → UsageWindow
one_more tokens_in tokens_out images researches u = record {
  prompt_count = u.prompt_count + 1;
  image_count = u.image_count + images;
  research_count = u.research_count + researches;
  token_input = u.token_input + tokens_in;
  token_output = u.token_output + tokens_out;
}

find_day-upsert_day :
    (n : UserDailyUsage) (ds : List UserDailyUsage)
    → find_day n.user_id n.usage_date (upsert_day n ds)
      ≡ some (elim (find_day n.user_id n.usage_date ds) [ none ↦ n | some d ↦ add_use n d ])
unfolding find_day upsert_day
find_day-upsert_day n [] = ground (arith, text_eq_refl n.user_id)
find_day-upsert_day n (d ∷ ds) = ground (arith, find_day-upsert_day n ds)

-- Where no statement fails, recording a use adds one prompt and the use's tokens, images and
-- researches both to every window of the user that begins by then and to the user's count of the
-- day.
pub get_usage_window-increment_daily_usage :
    (user_id : Text) (tokens_in tokens_out images researches since : ℕ) (w : World)
    → Calm w
    → since ≤ w.now
    → (get_usage_window user_id since
          (increment_daily_usage user_id tokens_in tokens_out images researches w).1).0
        ≡ ok (
            one_more tokens_in tokens_out images researches
              (window_of user_id since w.usage_events))
      × ((get_daily_usage user_id
            (increment_daily_usage user_id tokens_in tokens_out images researches w).1).0
          ≡ ok (
              add_use
                (first_use user_id (daily_usage_date w.now) tokens_in tokens_out images researches)
                (day_or_none user_id
                  (daily_usage_date w.now)
                  (find_day user_id (daily_usage_date w.now) w.daily_usage))))
unfolding get_usage_window increment_daily_usage window_of get_daily_usage find_day
get_usage_window-increment_daily_usage user_id tokens_in tokens_out images researches since w c s =
    (
      ground (arith, c, s, text_eq_refl user_id),
      ground (
        arith,
        c,
        find_day-upsert_day
            (first_use user_id (daily_usage_date w.now) tokens_in tokens_out images researches)
            w.daily_usage,
      ),
    )
