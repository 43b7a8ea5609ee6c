-- ===== src/Database/Trackers/Suggestions.antt =====
-- The suggestions of tracker entries that the user approves or dismisses
-- (internal/database/tracker_suggestion_store.go).
use be_miawai.Base.{◌&&◌, ◌∷◌, [], Text, codes, ℕ, Bool, List, text_eq, if◌then◌else◌, map, not}
use be_miawai.Database.World.{
  ◌>>=◌, ◌>>◌, SuggestionRow, Query, statement, gets, modify, transaction, raise_if, new_id,
  constraint, pure, no_rows,
}
use be_miawai.Database.Rows.{rows_where, any_row, touch_rows, first_row}
use be_miawai.Models.{TrackerEntryInput, TrackerSuggestion, TrackerEntry}
use be_miawai.Database.Trackers.{
  normalize_tracker_input, create_tracker_entry, merged, tracker_content_hash,
}
use be_miawai.Database.WhatsApp.{pending}
use be_miawai.Database.ApiKeys.{first_chars}
use be_miawai.Database.Users.{or_no_rows}

abbrev pub approved : Text
approved = codes "approved"

abbrev pub dismissed : Text
dismissed = codes "dismissed"

-- `WHERE user_id = $1 AND review_status = 'pending'`
abbrev pub is_open : Text → SuggestionRow → Bool
is_open user_id r = text_eq r.user_id user_id && text_eq r.suggestion.review_status pending

-- `WHERE id = $1 AND user_id = $2`
abbrev pub is_suggestion : Text → Text → SuggestionRow → Bool
is_suggestion user_id id r = text_eq r.suggestion.id id && text_eq r.user_id user_id

-- `WHERE id = $1 AND user_id = $2 AND review_status = 'pending'`
abbrev pub is_reviewable : Text → Text → SuggestionRow → Bool
is_reviewable user_id id r =
    is_suggestion user_id id r && text_eq r.suggestion.review_status pending

unfoldable pub list_tracker_suggestions : Text → Query (List TrackerSuggestion)
unfolding rows_where
list_tracker_suggestions user_id = do
  statement
  gets (λ w. map (λ r. r.suggestion) (rows_where (is_open user_id) w.content.tracker_suggestions))

abbrev pub new_suggestion : Text → Text → TrackerEntryInput → Text → ℕ → SuggestionRow
new_suggestion id user_id input hash now = record {
  suggestion = record {
    id = id;
    entry = input;
    review_status = pending;
    created_tracker_entry_id = [];
    created_at = now;
    updated_at = now;
  };
  user_id = user_id;
  content_hash = hash;
}

abbrev pub same_suggestion : Text → Text → SuggestionRow → Bool
same_suggestion user_id hash r = is_open user_id r && text_eq r.content_hash hash

-- `ON CONFLICT (user_id, content_hash) WHERE review_status = 'pending' DO UPDATE`
unfoldable pub upsert_suggestion : SuggestionRow → List SuggestionRow → List SuggestionRow
unfolding any_row touch_rows
upsert_suggestion n rs =
    if any_row (same_suggestion n.user_id n.content_hash) rs
    then touch_rows (same_suggestion n.user_id n.content_hash)
        (λ r. record r {
          suggestion = record r.suggestion {
            entry = record r.suggestion.entry {
              metadata = merged r.suggestion.entry.metadata n.suggestion.entry.metadata;
            };
            updated_at = n.suggestion.updated_at;
          };
        })
        rs
    else n ∷ rs

abbrev pub mark_approved : Text → ℕ → SuggestionRow → SuggestionRow
mark_approved entry_id now r = record r {
  suggestion = record r.suggestion {
    review_status = approved;
    created_tracker_entry_id = entry_id;
    updated_at = now;
  };
}

unfoldable pub dismiss_tracker_suggestion : Text → Text → Query (Unit {0})
unfolding any_row touch_rows
dismiss_tracker_suggestion user_id id = do
  statement
  found ← gets (λ w. any_row (is_reviewable user_id id) w.content.tracker_suggestions)
  modify (λ w. record w {
    content = record w.content {
      tracker_suggestions =
          touch_rows (is_reviewable user_id id)
            (λ r. record r {
              suggestion = record r.suggestion { review_status = dismissed; updated_at = w.now };
            })
            w.content.tracker_suggestions;
    };
  })
  raise_if (not found) no_rows

module _ (digest : Text → Text) where
  unfoldable pub create_tracker_suggestion : Text → TrackerEntryInput → Query TrackerSuggestion
  unfolding normalize_tracker_input upsert_suggestion first_row any_row first_chars
  create_tracker_suggestion user_id raw = do
    let input = normalize_tracker_input raw
    let hash = tracker_content_hash digest user_id input
    id ← new_id (codes "sug")
    statement
    clash ← gets (λ w. any_row (λ r. text_eq r.suggestion.id id) w.content.tracker_suggestions)
    raise_if clash constraint
    modify (λ w. record w {
      content = record w.content {
        tracker_suggestions =
            upsert_suggestion (new_suggestion id user_id input hash w.now)
              w.content.tracker_suggestions;
      };
    })
    row ←
        or_no_rows
          (← gets (λ w. first_row (same_suggestion user_id hash) w.content.tracker_suggestions))
    pure row.suggestion

  unfoldable pub approve_tracker_suggestion : Text → Text → Query TrackerEntry
  unfolding create_tracker_entry first_row touch_rows
  approve_tracker_suggestion user_id id = transaction do
    statement
    row ←
        or_no_rows
          (← gets (λ w. first_row (is_reviewable user_id id) w.content.tracker_suggestions))
    entry ← create_tracker_entry digest user_id row.suggestion.entry
    statement
    modify (λ w. record w {
      content = record w.content {
        tracker_suggestions =
            touch_rows (is_suggestion user_id id) (mark_approved entry.id w.now)
              w.content.tracker_suggestions;
      };
    })
    pure entry
