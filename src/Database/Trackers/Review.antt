-- ===== src/Database/Trackers/Review.antt =====
-- The review of tracker suggestions (internal/database/tracker_suggestion_store.go).
use be_miawai.Database.Rows.{any_row, touch_rows, rows_where, delete_rows, first_row}
use be_miawai.Base.{
  [], ◌∷◌, ◌++◌, false, true, refl, ◌≡◌, inl, inr, Bool-cases, Text, text_eq, Bool, ℕ, List, map,
  arith, Option, none, ap,
}
use be_miawai.Database.World.{
  ◌>>=◌, ◌>>◌, ok, err, World, Query, Result, SuggestionRow, Error, resume, settle, statement,
  transaction, pure, failing, modify, gets, db_fault, later_faults, no_rows,
}
use be_miawai.Database.Trackers.{create_tracker_entry}
use be_miawai.Database.Trackers.Suggestions.{
  is_reviewable, is_suggestion, mark_approved, approve_tracker_suggestion,
  dismiss_tracker_suggestion, dismissed,
}
use be_miawai.Models.{TrackerEntry}
use be_miawai.Database.Users.{or_no_rows}

module _ {A : Type 0} where
  any_row-append :
      (p : A → Bool) (rs ss : List A)
      → any_row p rs ≡ false
      → any_row p ss ≡ false
      → any_row p (rs ++ ss) ≡ false
  unfolding any_row
  any_row-append p [] ss h k = k
  any_row-append p (r ∷ rs) ss h k = ground (arith, h, any_row-append p rs ss (ground arith) k)

  any_row-touched :
      (p test : A → Bool) (change : A → A) (rs : List A)
      → ((r : A) → test r ≡ true → p (change r) ≡ false)
      → any_row p (map change (rows_where test rs)) ≡ false
  unfolding any_row rows_where
  any_row-touched p test change [] k = refl
  any_row-touched p test change (r ∷ rs) k = ground (arith, any_row-touched p test change rs k, k r)

  any_row-untouched :
      (p test : A → Bool) (rs : List A)
      → ((r : A) → test r ≡ false → p r ≡ false)
      → any_row p (delete_rows test rs) ≡ false
  unfolding any_row delete_rows
  any_row-untouched p test [] k = refl
  any_row-untouched p test (r ∷ rs) k = ground (arith, any_row-untouched p test rs k, k r)

  -- An update of all rows that a query reads, to such as it does not read, leaves it none.
  pub any_row-touch_rows :
      (p test : A → Bool) (change : A → A) (rs : List A)
      → ((r : A) → test r ≡ true → p (change r) ≡ false)
      → ((r : A) → test r ≡ false → p r ≡ false)
      → any_row p (touch_rows test change rs) ≡ false
  unfolding touch_rows
  any_row-touch_rows p test change rs k l =
      any_row-append p (map change (rows_where test rs)) (delete_rows test rs)
        (any_row-touched p test change rs k) (any_row-untouched p test rs l)

-- No pending suggestion has the id.
abbrev pub IsReviewed : Text → Text → World → Type 0
IsReviewed user_id id w = any_row (is_reviewable user_id id) w.content.tracker_suggestions ≡ false

approved-IsReviewed :
    (user_id id entry_id : Text) (now : ℕ) (rs : List SuggestionRow)
    → any_row
        (is_reviewable user_id id)
        (touch_rows (is_suggestion user_id id) (mark_approved entry_id now) rs)
      ≡ false
unfolding text_eq
approved-IsReviewed user_id id entry_id now rs =
    any_row-touch_rows (is_reviewable user_id id) (is_suggestion user_id id)
      (mark_approved entry_id now) rs (λ r h. ground arith) (λ r h. ground (arith, h))

-- Where the computation succeeds, the suggestion is reviewed.
module _ (user_id id : Text) where
  abbrev pub Reviews : {A : Type 0} → Query A → Type 0
  Reviews {A} m = (w : World) (a : A) → (m w).0 ≡ ok a → IsReviewed user_id id (m w).1

  resume-Reviews :
      {A B : Type 0} (f : B → Query A) (r : Result Error B × World) (a : A)
      → ((b : B) → Reviews (f b))
      → (resume f r).0 ≡ ok a
      → IsReviewed user_id id (resume f r).1
  resume-Reviews f (ok b, w) a k h = k b w a h
  resume-Reviews f (err e, w) a k h = cc

  rest-Reviews :
      {A B : Type 0} (m : Query B) (f : B → Query A) → ((b : B) → Reviews (f b)) → Reviews (m >>= f)
  rest-Reviews m f k w a h = resume-Reviews f (m w) a k h

  bind-Reviews :
      {A B : Type 0} (m : Query B) (f : B → Query A)
      → Reviews m
      → ((b : B) (w : World) → IsReviewed user_id id w → IsReviewed user_id id (f b w).1)
      → Reviews (m >>= f)
  bind-Reviews {A} {B} m f q k w a h = from (m w) (q w) h
    where
      from :
          (r : Result Error B × World)
          → ((b : B) → r.0 ≡ ok b → IsReviewed user_id id r.1)
          → (resume f r).0 ≡ ok a
          → IsReviewed user_id id (resume f r).1
      from (ok b, v) q h = k b v (q b refl)
      from (err e, v) q h = cc

  settle-Reviews :
      {A : Type 0} (r : Result Error A × World) (w : World) (a : A)
      → (r.0 ≡ ok a → IsReviewed user_id id r.1)
      → (settle r w).0 ≡ ok a
      → IsReviewed user_id id (settle r w).1
  settle-Reviews (ok b, v) w a q h = q h
  settle-Reviews (err e, v) w a q h = cc

  finished :
      {A : Type 0} (a : A) (w : World)
      → IsReviewed user_id id w
      → IsReviewed user_id id ((statement >> pure a) w).1
  finished a w h = elim (Bool-cases (failing w.faults)) [ inl t ↦ rw t h | inr t ↦ rw t h ]

  transaction-Reviews : {A : Type 0} (m : Query A) → Reviews m → Reviews (transaction m)
  transaction-Reviews m k w a h =
      settle-Reviews ((do statement; b ← m; statement; pure b) w) w a
        (rest-Reviews statement (λ u. m >>= λ b. statement >> pure b)
          (λ u. bind-Reviews m (λ b. statement >> pure b) k finished) w a)
        h

  -- What an approval does once the entry is there.
  abbrev pub approval : TrackerEntry → Query TrackerEntry
  approval entry = do
    statement
    modify (λ w. record w {
      content = record w.content {
        tracker_suggestions =
            touch_rows (is_suggestion user_id id) (mark_approved entry.id w.now)
              w.content.tracker_suggestions;
      };
    })
    pure entry

  approval-Reviews : (entry : TrackerEntry) → Reviews (approval entry)
  approval-Reviews entry w a h = elim (Bool-cases (failing w.faults)) [
    | inl t ↦ ground (arith, t, h)
    | inr t ↦ rw t (approved-IsReviewed user_id id entry.id w.now w.content.tracker_suggestions)
  ]

  pub approve-Reviews :
      (digest : Text → Text) → Reviews (approve_tracker_suggestion digest user_id id)
  unfolding approve_tracker_suggestion
  approve-Reviews digest =
      let go : SuggestionRow → Query TrackerEntry =
        λ row. create_tracker_entry digest user_id row.suggestion.entry >>= approval in
      let found : Query (Option SuggestionRow) =
        gets (λ w. first_row (is_reviewable user_id id) w.content.tracker_suggestions) in
      transaction-Reviews (statement >> ((found >>= or_no_rows) >>= go)) (
        rest-Reviews statement (λ u. (found >>= or_no_rows) >>= go)
          λ u. rest-Reviews (found >>= or_no_rows) go λ row.
            rest-Reviews (create_tracker_entry digest user_id row.suggestion.entry) approval
              approval-Reviews)

  pub dismiss-Reviews : Reviews (dismiss_tracker_suggestion user_id id)
  unfolding dismiss_tracker_suggestion text_eq
  dismiss-Reviews w a h = elim (Bool-cases (failing w.faults)) [
    | inl t ↦ ground (arith, t, h)
    | inr t ↦ elim (Bool-cases (any_row (is_reviewable user_id id) w.content.tracker_suggestions)) [
      | inl u ↦ rw t (
          any_row-touch_rows (is_reviewable user_id id) (is_reviewable user_id id)
            (λ r. record r {
              suggestion = record r.suggestion { review_status = dismissed; updated_at = w.now };
            })
            w.content.tracker_suggestions (λ r k. ground arith) (λ r k. k))
      | inr u ↦ ground (arith, t, u, h)
    ]
  ]

module _ {A : Type 0} where
  none_first : (test : A → Bool) (rs : List A) → any_row test rs ≡ false → first_row test rs ≡ none
  unfolding any_row first_row
  none_first test [] h = refl
  none_first test (r ∷ rs) h = ground (arith, h, none_first test rs)

  none_picked : (test : A → Bool) (rs : List A) → any_row test rs ≡ false → rows_where test rs ≡ []
  unfolding any_row rows_where
  none_picked test [] h = refl
  none_picked test (r ∷ rs) h = ground (arith, h, none_picked test rs)

  none_deleted :
      (test : A → Bool) (rs : List A) → any_row test rs ≡ false → delete_rows test rs ≡ rs
  unfolding any_row delete_rows
  none_deleted test [] h = refl
  none_deleted test (r ∷ rs) h = ground (arith, h, none_deleted test rs)

  none_touched :
      (test : A → Bool) (change : A → A) (rs : List A)
      → any_row test rs ≡ false
      → touch_rows test change rs ≡ rs
  unfolding touch_rows
  none_touched test change rs h = rw (none_picked test rs h, none_deleted test rs h) refl

module _ (user_id id : Text) (w : World) (h : IsReviewed user_id id w) where
  pub approve_refused :
      (digest : Text → Text)
      → (e : Error) × ((approve_tracker_suggestion digest user_id id w).0 ≡ err e)
        × ((approve_tracker_suggestion digest user_id id w).1.content ≡ w.content)
  unfolding approve_tracker_suggestion
  approve_refused digest = elim (Bool-cases (failing w.faults)) [
    | inl t ↦ (db_fault, rw t refl, rw t refl)
    | inr t ↦
        let n : first_row (is_reviewable user_id id) w.content.tracker_suggestions ≡ none =
          none_first (is_reviewable user_id id) w.content.tracker_suggestions h in
        elim (Bool-cases (failing (later_faults w.faults))) [
          | inl u ↦ (db_fault, rw (t, u) refl, rw (t, u) refl)
          | inr u ↦ (no_rows, rw (t, u, n) refl, rw (t, u, n) refl)
        ]
  ]

  pub dismiss_refused :
      (e : Error) × ((dismiss_tracker_suggestion user_id id w).0 ≡ err e)
      × ((dismiss_tracker_suggestion user_id id w).1.content ≡ w.content)
  unfolding dismiss_tracker_suggestion
  dismiss_refused = elim (Bool-cases (failing w.faults)) [
    | inl t ↦ (db_fault, rw t refl, rw t refl)
    | inr t ↦ (
      no_rows,
      rw (t, h) refl,
      rw t (
          ap (λ rs. record w.content { tracker_suggestions = rs })
            (none_touched (is_reviewable user_id id)
              (λ r. record r {
                suggestion = record r.suggestion { review_status = dismissed; updated_at = w.now };
              })
              w.content.tracker_suggestions h)),
    )
  ]
