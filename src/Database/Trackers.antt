-- ===== src/Database/Trackers.antt =====
-- The tracker entries of internal/database/tracker_store.go. The digest is a parameter.
pub mod Suggestions
pub mod Review
pub mod Kept
pub mod Closed
use be_miawai.Base.{
  ℕ, List, [], ◌∷◌, ◌++◌, Option, none, some, Bool, true, false, not, ◌&&◌, ◌||◌, Text, codes,
  text_eq, one_of, is_blank, map, if◌then◌else◌,
}
use be_miawai.Base.Strings.{trim_space, folded, to_lower}
use be_miawai.Base.Fields.{squeezed}
use be_miawai.Models.{Metadata, TrackerEntryInput, TrackerEntry, TrackerSuggestion}
use be_miawai.Database.World.{
  World, Query, TrackerRow, SuggestionRow, constraint, no_rows, ok, err, pure, raise, raise_if,
  gets, modify, ◌>>=◌, ◌>>◌, statement, transaction, new_id,
}
use be_miawai.Database.Rows.{any_row, first_row, rows_where, touch_rows}
use be_miawai.Database.Users.{or_no_rows, is_some}
use be_miawai.Database.ApiKeys.{first_chars}
use be_miawai.Database.WhatsApp.{pending}

-- `normalizeTrackerModule`, on the keys of `allowedTrackerModules`
unfoldable pub normalize_tracker_module : Text → Text
normalize_tracker_module topic =
    if one_of (folded topic)
      (codes "finance" ∷ codes "assets" ∷ codes "pangan" ∷ codes "health" ∷ codes "persona" ∷ [])
    then folded topic
    else []

-- `normalizeTrackerSource`
unfoldable pub normalize_tracker_source : Text → Text
normalize_tracker_source source =
    if one_of (folded source)
      (codes "miaw ai chat" ∷ codes "chat" ∷ codes "ai" ∷ codes "ai_chat" ∷ [])
    then codes "Miaw AI Chat"
    else if one_of (folded source)
        (codes "image upload" ∷ codes "image" ∷ codes "upload" ∷ codes "receipt" ∷ [])
    then codes "Image Upload"
    else codes "Manual"

abbrev pub filled : Text → Text → Text
filled value fallback = if is_blank value then fallback else value

-- `normalizeTrackerInput`
unfoldable pub normalize_tracker_input : TrackerEntryInput → TrackerEntryInput
unfolding normalize_tracker_module normalize_tracker_source
normalize_tracker_input input = record {
  topic = filled (normalize_tracker_module input.topic) (codes "finance");
  title = trim_space input.title;
  amount = trim_space input.amount;
  status = filled (trim_space input.status) (codes "tracked");
  category = filled (trim_space input.category) (codes "general");
  detail = trim_space input.detail;
  source = normalize_tracker_source input.source;
  updated_from = filled (trim_space input.updated_from) (normalize_tracker_source input.source);
  metadata = input.metadata;
}

unfoldable pub has_entry : Text → Metadata → Bool
has_entry k [] = false
has_entry k (e ∷ es) = text_eq e.0 k || has_entry k es

-- The entries whose keys the other map does not have.
unfoldable pub without_keys : Metadata → Metadata → Metadata
unfolding has_entry
without_keys new [] = []
without_keys new (e ∷ es) =
    let rest = without_keys new es in if has_entry e.0 new then rest else e ∷ rest

-- `||` of two JSON objects
abbrev pub merged : Metadata → Metadata → Metadata
merged old new = new ++ without_keys new old

-- `WHERE user_id = $1 AND deleted_at IS NULL`
abbrev pub is_current : Text → TrackerRow → Bool
is_current user_id r = text_eq r.user_id user_id && not (is_some r.deleted_at)

-- `WHERE id = $1 AND user_id = $2 AND deleted_at IS NULL`
abbrev pub is_entry : Text → Text → TrackerRow → Bool
is_entry user_id id r = text_eq r.tracker.id id && is_current user_id r

abbrev pub same_entry : Text → Text → TrackerRow → Bool
same_entry user_id hash r = is_current user_id r && text_eq r.content_hash hash

-- What an upsert sets on the entry with the digest.
abbrev pub refresh_entry : TrackerEntryInput → ℕ → TrackerRow → TrackerRow
refresh_entry input now r = record r {
  tracker = record r.tracker {
    entry = record r.tracker.entry {
      status = input.status;
      source = input.source;
      updated_from = input.updated_from;
      metadata = merged r.tracker.entry.metadata input.metadata;
    };
    updated_at = now;
  };
}

abbrev pub new_entry : Text → Text → TrackerEntryInput → Text → ℕ → TrackerRow
new_entry id user_id input hash now = record {
  tracker = record { id = id; entry = input; created_at = now; updated_at = now };
  user_id = user_id;
  content_hash = hash;
  deleted_at = none;
}

-- `INSERT … ON CONFLICT (user_id, content_hash) WHERE deleted_at IS NULL DO UPDATE`
unfoldable pub upsert_entry : TrackerRow → List TrackerRow → List TrackerRow
unfolding any_row touch_rows
upsert_entry n rs =
    if any_row (same_entry n.user_id n.content_hash) rs
    then touch_rows (same_entry n.user_id n.content_hash)
        (refresh_entry n.tracker.entry n.tracker.updated_at) rs
    else n ∷ rs

abbrev pub of_module : Text → Text → TrackerRow → Bool
of_module user_id topic r =
    is_current user_id r && (is_blank topic || text_eq r.tracker.entry.topic topic)

unfoldable pub list_tracker_entries : Text → Text → Query (List TrackerEntry)
unfolding normalize_tracker_module rows_where
list_tracker_entries user_id topic = do
  statement
  gets (λ w.
      map (λ r. r.tracker)
        (rows_where (of_module user_id (normalize_tracker_module topic)) w.content.tracker_entries))

-- The digest is not changed with the entry.
unfoldable pub update_tracker_entry : Text → Text → TrackerEntryInput → Query TrackerEntry
unfolding normalize_tracker_input touch_rows first_row
update_tracker_entry user_id id input = do
  statement
  modify (λ w. record w {
    content = record w.content {
      tracker_entries =
          touch_rows (is_entry user_id id)
            (λ r. record r {
              tracker = record r.tracker {
                entry = normalize_tracker_input input;
                updated_at = w.now;
              };
            })
            w.content.tracker_entries;
    };
  })
  row ← or_no_rows (← gets (λ w. first_row (is_entry user_id id) w.content.tracker_entries))
  pure row.tracker

unfoldable pub delete_tracker_entry : Text → Text → Query (Unit {0})
unfolding any_row touch_rows
delete_tracker_entry user_id id = do
  statement
  found ← gets (λ w. any_row (is_entry user_id id) w.content.tracker_entries)
  modify (λ w. record w {
    content = record w.content {
      tracker_entries =
          touch_rows (is_entry user_id id)
            (λ r. record r {
              deleted_at = some w.now;
              tracker = record r.tracker { updated_at = w.now };
            })
            w.content.tracker_entries;
    };
  })
  raise_if (not found) no_rows

module _ (digest : Text → Text) where
  -- `trackerContentHash`
  abbrev pub tracker_content_hash : Text → TrackerEntryInput → Text
  tracker_content_hash user_id input = first_chars 32 (
      digest (
        to_lower (
          squeezed (
            user_id
            ++ codes "|"
            ++ input.topic
            ++ codes "|"
            ++ input.title
            ++ codes "|"
            ++ input.amount
            ++ codes "|"
            ++ input.category
            ++ codes "|"
            ++ input.detail))))

  -- `createTrackerEntryWithExec`, and `CreateTrackerEntry`
  unfoldable pub create_tracker_entry : Text → TrackerEntryInput → Query TrackerEntry
  unfolding normalize_tracker_input upsert_entry first_row any_row first_chars
  create_tracker_entry user_id raw = do
    let input = normalize_tracker_input raw
    let hash = tracker_content_hash user_id input
    id ← new_id (codes "trk")
    statement
    clash ← gets (λ w. any_row (λ r. text_eq r.tracker.id id) w.content.tracker_entries)
    raise_if clash constraint
    modify (λ w. record w {
      content = record w.content {
        tracker_entries =
            upsert_entry (new_entry id user_id input hash w.now) w.content.tracker_entries;
      };
    })
    row ← or_no_rows (← gets (λ w. first_row (same_entry user_id hash) w.content.tracker_entries))
    pure row.tracker
