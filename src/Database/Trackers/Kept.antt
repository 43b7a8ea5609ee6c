-- ===== src/Database/Trackers/Kept.antt =====
-- What the methods of internal/database/tracker_suggestion_store.go keep of the suggestions.
use be_miawai.Base.{
  none, some, [], ◌∷◌, ◌≡◌, inl, inr, refl, true, false, arith, Text, List, Option, text_eq, Bool,
  ℕ, text_eq_iff, Bool-cases, subst, sym,
}
use be_miawai.Database.World.{◌>>=◌, ◌>>◌, World, SuggestionRow, failing, Query, gets, statement}
use be_miawai.Database.Rows.{any_row, touch_rows, first_row}
use be_miawai.Database.Trackers.Suggestions.{
  upsert_suggestion, approve_tracker_suggestion, dismiss_tracker_suggestion, is_reviewable,
  same_suggestion, is_suggestion, dismissed, mark_approved,
}
use be_miawai.Database.Trackers.{create_tracker_entry, merged}
use be_miawai.Models.{TrackerEntryInput, TrackerEntry}
use be_miawai.Database.Keeps.{Holds, transaction-Holds, bind-Holds, statement-Holds}
use be_miawai.Database.Users.{or_no_rows}
use be_miawai.Database.Rows.Every.{any_row-touch_rows_kept, any_row-touch_rows_none}
use be_miawai.Database.Trackers.Review.{approval}

-- The table holds the id, and no pending suggestion of the user has it.
abbrev pub IsDone : Text → Text → List SuggestionRow → Type 0
IsDone user_id id rs =
    (any_row (λ r. text_eq r.suggestion.id id) rs ≡ true)
    × (any_row (is_reviewable user_id id) rs ≡ false)

abbrev pub Done : Text → Text → World → Type 0
Done user_id id w = IsDone user_id id w.content.tracker_suggestions

-- An update that leaves the ids and reopens nothing.
pub touch-IsDone :
    (user_id id : Text) (test : SuggestionRow → Bool) (change : SuggestionRow → SuggestionRow)
    (rs : List SuggestionRow)
    → ((r : SuggestionRow) → (change r).suggestion.id ≡ r.suggestion.id)
    → ((r : SuggestionRow)
        → is_reviewable user_id id r ≡ false
        → is_reviewable user_id id (change r) ≡ false)
    → IsDone user_id id rs
    → IsDone user_id id (touch_rows test change rs)
touch-IsDone user_id id test change rs k l (a, b) = (
  any_row-touch_rows_kept (λ r. text_eq r.suggestion.id id) test change rs
      (λ r h. subst (λ t. text_eq t id ≡ true) (sym (k r)) h) a,
  any_row-touch_rows_none (is_reviewable user_id id) test change rs l b,
)

apart_id :
    (id : Text) (n : Text) (rs : List SuggestionRow)
    → any_row (λ r. text_eq r.suggestion.id id) rs ≡ true
    → any_row (λ r. text_eq r.suggestion.id n) rs ≡ false
    → text_eq n id ≡ false
unfolding any_row
apart_id id n [] h k = cc
apart_id id n (r ∷ rs) h k = ground (
  arith,
  h,
  k,
  apart_id id n rs,
  text_eq_iff n id,
  text_eq_iff r.suggestion.id id,
  text_eq_iff r.suggestion.id n,
)

pub upsert-IsDone :
    (user_id id : Text) (n : SuggestionRow) (rs : List SuggestionRow)
    → any_row (λ r. text_eq r.suggestion.id n.suggestion.id) rs ≡ false
    → IsDone user_id id rs
    → IsDone user_id id (upsert_suggestion n rs)
unfolding upsert_suggestion any_row
upsert-IsDone user_id id n rs fresh (a, b) =
    elim (Bool-cases (any_row (same_suggestion n.user_id n.content_hash) rs)) [
      | inl t ↦ rw t (
          touch-IsDone user_id id (same_suggestion n.user_id n.content_hash)
            (λ r. record r {
              suggestion = record r.suggestion {
                entry = record r.suggestion.entry {
                  metadata = merged r.suggestion.entry.metadata n.suggestion.entry.metadata;
                };
                updated_at = n.suggestion.updated_at;
              };
            })
            rs (λ r. refl) (λ r h. h) (a, b))
      | inr t ↦
          let other : text_eq n.suggestion.id id ≡ false = apart_id id n.suggestion.id rs a fresh in
          rw t (ground (arith, a), ground (arith, other, b))
    ]

entry_keeps_suggestions :
    (digest : Text → Text) (u : Text) (input : TrackerEntryInput) (w : World)
    → (create_tracker_entry digest u input w).1.content.tracker_suggestions
      ≡ w.content.tracker_suggestions
unfolding create_tracker_entry
entry_keeps_suggestions digest u input w = ground arith

pub or_no_rows-Holds : {A : Type 0} (P : World → Type 0) (a : Option A) → Holds P (or_no_rows a)
or_no_rows-Holds P (some a) w h = h
or_no_rows-Holds P none w h = h

-- What the two reviews keep of the table.
module _ (Q : List SuggestionRow → Type 0) where
  abbrev pub OnTable : World → Type 0
  OnTable w = Q w.content.tracker_suggestions

  settled_stays :
      (w : World) (d : ℕ) (fs : List Bool)
      → OnTable w
      → OnTable (record w { draws = d; faults = fs })
  settled_stays w d fs h = h

  entry-OnTable :
      (digest : Text → Text) (u : Text) (input : TrackerEntryInput)
      → Holds OnTable (create_tracker_entry digest u input)
  entry-OnTable digest u input w d = subst Q (sym (entry_keeps_suggestions digest u input w)) d

  mark-OnTable :
      (u i : Text)
      → ((e : Text) (now : ℕ) (rs : List SuggestionRow)
          → Q rs
          → Q (touch_rows (is_suggestion u i) (mark_approved e now) rs))
      → (entry : TrackerEntry) → Holds OnTable (approval u i entry)
  mark-OnTable u i k entry w d = elim (Bool-cases (failing w.faults)) [
    | inl t ↦ rw t d
    | inr t ↦ rw t (k entry.id w.now w.content.tracker_suggestions d)
  ]

  pub approve-OnTable :
      (digest : Text → Text) (u i : Text)
      → ((e : Text) (now : ℕ) (rs : List SuggestionRow)
          → Q rs
          → Q (touch_rows (is_suggestion u i) (mark_approved e now) rs))
      → Holds OnTable (approve_tracker_suggestion digest u i)
  unfolding approve_tracker_suggestion
  approve-OnTable digest u i k =
      let read : Query (Option SuggestionRow) =
        gets (λ w. first_row (is_reviewable u i) w.content.tracker_suggestions) in
      let go : SuggestionRow → Query TrackerEntry =
        λ row. create_tracker_entry digest u row.suggestion.entry >>= approval u i in
      transaction-Holds OnTable settled_stays (statement >> ((read >>= or_no_rows) >>= go)) (
        bind-Holds OnTable statement (λ v. (read >>= or_no_rows) >>= go)
          (statement-Holds OnTable settled_stays)
          λ v.
            bind-Holds OnTable (read >>= or_no_rows) go
              (bind-Holds OnTable read or_no_rows (λ w h. h) (or_no_rows-Holds OnTable))
              λ row.
                bind-Holds OnTable (create_tracker_entry digest u row.suggestion.entry)
                  (approval u i) (entry-OnTable digest u row.suggestion.entry) (mark-OnTable u i k))

  pub dismiss-OnTable :
      (u i : Text)
      → ((now : ℕ) (rs : List SuggestionRow)
          → Q rs
          → Q (
              touch_rows
                (is_reviewable u i)
                (λ r. record r {
                  suggestion = record r.suggestion { review_status = dismissed; updated_at = now };
                })
                rs))
      → Holds OnTable (dismiss_tracker_suggestion u i)
  unfolding dismiss_tracker_suggestion
  dismiss-OnTable u i k w d = elim (Bool-cases (failing w.faults)) [
    | inl t ↦ rw t d
    | inr t ↦ rw t (k w.now w.content.tracker_suggestions d)
  ]
