-- ===== src/Database/Trackers/Closed.antt =====
-- A suggestion that was reviewed stays so, whatever happens later
-- (internal/database/tracker_suggestion_store.go).
use be_miawai.Database.Trackers.Kept.{
  or_no_rows-Holds, OnTable, Done, approve-OnTable, dismiss-OnTable, IsDone, touch-IsDone,
  upsert-IsDone,
}
use be_miawai.Base.{
  [], ◌∷◌, ◌≡◌, ◌⊎◌, inl, inr, refl, true, false, arith, Text, List, text_eq, subst, Bool-cases,
  sym, codes, ◌++◌, ◌+◌,
}
use be_miawai.Database.World.{ok, err, World, SuggestionRow, Error, failing, pure, later_faults}
use be_miawai.Database.Trackers.Suggestions.{
  approve_tracker_suggestion, create_tracker_suggestion, dismiss_tracker_suggestion, is_reviewable,
  is_suggestion, dismissed, mark_approved, new_suggestion, upsert_suggestion, same_suggestion,
}
use be_miawai.Database.Keeps.{Holds, bind-Holds}
use be_miawai.Database.Rows.{any_row, first_row}
use be_miawai.Models.{TrackerEntry, TrackerEntryInput}
use be_miawai.Database.Rows.Every.{any_row-touch_rows_kept}
use be_miawai.Database.Trackers.{normalize_tracker_input, tracker_content_hash}
use be_miawai.Database.Trackers.Review.{
  approve_refused, dismiss_refused, approve-Reviews, dismiss-Reviews,
}
use be_miawai.Database.Users.{or_no_rows}

-- A later world: after any calls, of any users, of the methods that write suggestions, and any
-- changes elsewhere, such as time, other tables and faults.
pub data Later (w : World) : World → Type 0 where
  same : Later w w
  approved_one :
      {v : World} (digest : Text → Text) (user_id id : Text)
      → Later w v
      → Later w (approve_tracker_suggestion digest user_id id v).1
  dismissed_one :
      {v : World} (user_id id : Text)
      → Later w v
      → Later w (dismiss_tracker_suggestion user_id id v).1
  suggested :
      {v : World} (digest : Text → Text) (user_id : Text) (input : TrackerEntryInput)
      → Later w v
      → Later w (create_tracker_suggestion digest user_id input v).1
  elsewhere :
      {v v' : World}
      → v'.content.tracker_suggestions ≡ v.content.tracker_suggestions
      → Later w v
      → Later w v'

module _ (user_id id : Text) where
  abbrev HasId : List SuggestionRow → Type 0
  HasId rs = any_row (λ r. text_eq r.suggestion.id id) rs ≡ true

  approve-HasId :
      (digest : Text → Text) (u i : Text)
      → Holds (OnTable HasId) (approve_tracker_suggestion digest u i)
  approve-HasId digest u i = approve-OnTable HasId digest u i λ e now rs h.
      any_row-touch_rows_kept (λ r. text_eq r.suggestion.id id) (is_suggestion u i)
        (mark_approved e now) rs (λ r p. p) h

  dismiss-HasId : (u i : Text) → Holds (OnTable HasId) (dismiss_tracker_suggestion u i)
  dismiss-HasId u i = dismiss-OnTable HasId u i λ now rs h.
      any_row-touch_rows_kept (λ r. text_eq r.suggestion.id id) (is_reviewable u i)
        (λ r. record r {
          suggestion = record r.suggestion { review_status = dismissed; updated_at = now };
        })
        rs (λ r p. p) h

  approve-Done :
      (digest : Text → Text) (u i : Text)
      → Holds (Done user_id id) (approve_tracker_suggestion digest u i)
  unfolding text_eq
  approve-Done digest u i = approve-OnTable (IsDone user_id id) digest u i λ e now rs d.
      touch-IsDone user_id id (is_suggestion u i) (mark_approved e now) rs (λ r. refl)
        (λ r h. ground arith) d

  dismiss-Done : (u i : Text) → Holds (Done user_id id) (dismiss_tracker_suggestion u i)
  unfolding text_eq
  dismiss-Done u i = dismiss-OnTable (IsDone user_id id) u i λ now rs d.
      touch-IsDone user_id id (is_reviewable u i)
        (λ r. record r {
          suggestion = record r.suggestion { review_status = dismissed; updated_at = now };
        })
        rs (λ r. refl) (λ r h. ground arith) d

  create-Done :
      (digest : Text → Text) (u : Text) (input : TrackerEntryInput)
      → Holds (Done user_id id) (create_tracker_suggestion digest u input)
  unfolding create_tracker_suggestion
  create-Done digest u raw w d =
      let input : TrackerEntryInput = normalize_tracker_input raw in
      let hash : Text = tracker_content_hash digest u input in
      let drawn : Text = codes "sug" ++ (b'_' ∷ w.random w.draws) in
      let row : SuggestionRow = new_suggestion drawn u input hash w.now in
      elim (Bool-cases (failing w.faults)) [
        | inl t ↦ rw t d
        | inr t ↦
            elim (Bool-cases
              (any_row (λ r. text_eq r.suggestion.id drawn) w.content.tracker_suggestions)) [
                | inl c ↦ rw (t, c) d
                | inr c ↦
                    let next : IsDone user_id id
                        (upsert_suggestion row w.content.tracker_suggestions) =
                      upsert-IsDone user_id id row w.content.tracker_suggestions c d in
                    rw (t, c)
                      (bind-Holds (Done user_id id)
                        (or_no_rows (
                          first_row (same_suggestion u hash)
                            (upsert_suggestion row w.content.tracker_suggestions)))
                        (λ r. pure r.suggestion)
                        (or_no_rows-Holds (Done user_id id) (
                          first_row (same_suggestion u hash)
                            (upsert_suggestion row w.content.tracker_suggestions)))
                        (λ r v h. h)
                        (record w {
                          draws = w.draws + 1;
                          faults = later_faults w.faults;
                          content = record w.content {
                            tracker_suggestions =
                                upsert_suggestion row w.content.tracker_suggestions;
                          };
                        })
                        next)
              ]
      ]

  later-Done : {w v : World} → Later w v → Done user_id id w → Done user_id id v
  later-Done same d = d
  later-Done (approved_one {v} digest u i l) d = approve-Done digest u i v (later-Done l d)
  later-Done (dismissed_one {v} u i l) d = dismiss-Done u i v (later-Done l d)
  later-Done (suggested {v} digest u input l) d = create-Done digest u input v (later-Done l d)
  later-Done (elsewhere e l) d = subst (IsDone user_id id) (sym e) (later-Done l d)

  -- Without the id there is nothing to review.
  absent :
      (rs : List SuggestionRow)
      → any_row (λ r. text_eq r.suggestion.id id) rs ≡ false
      → any_row (is_reviewable user_id id) rs ≡ false
  unfolding any_row
  absent [] h = refl
  absent (r ∷ rs) h = ground (arith, h, absent rs)

  approve-opens :
      (digest : Text → Text) (w : World) (e : TrackerEntry)
      → (approve_tracker_suggestion digest user_id id w).0 ≡ ok e
      → HasId w.content.tracker_suggestions
  approve-opens digest w e h =
      elim (Bool-cases (any_row (λ r. text_eq r.suggestion.id id) w.content.tracker_suggestions)) [
        | inl t ↦ t
        | inr t ↦
            let (x, n, c) =
              approve_refused user_id id w (absent w.content.tracker_suggestions t) digest in
            absurd (ground (arith, h, n))
      ]

  dismiss-opens :
      (w : World)
      → (dismiss_tracker_suggestion user_id id w).0 ≡ ok tt
      → HasId w.content.tracker_suggestions
  dismiss-opens w h =
      elim (Bool-cases (any_row (λ r. text_eq r.suggestion.id id) w.content.tracker_suggestions)) [
        | inl t ↦ t
        | inr t ↦
            let (x, n, c) = dismiss_refused user_id id w (absent w.content.tracker_suggestions t) in
            absurd (ground (arith, h, n))
      ]

  refused_later :
      (w v : World) (digest : Text → Text)
      → Done user_id id w
      → Later w v
      → ((e : Error) × ((approve_tracker_suggestion digest user_id id v).0 ≡ err e)
          × ((approve_tracker_suggestion digest user_id id v).1.content ≡ v.content))
        × ((e : Error) × ((dismiss_tracker_suggestion user_id id v).0 ≡ err e)
            × ((dismiss_tracker_suggestion user_id id v).1.content ≡ v.content))
  refused_later w v digest d l =
      let (a, b) = later-Done l d in
      (approve_refused user_id id v b digest, dismiss_refused user_id id v b)

-- After a suggestion was approved or dismissed, and in any later world, after any approvals,
-- dismissals and creations of suggestions by any users and any changes of the time, the faults and
-- the other tables, it is not reviewed again, whatever statements fail: another approval or
-- dismissal of it by the user fails, and changes no memory, job, entry, suggestion, setting or
-- conversation.
pub review_once :
    (digest digest' : Text → Text) (user_id id : Text) (w w' v : World)
    → ((entry : TrackerEntry) × (approve_tracker_suggestion digest user_id id w ≡ (ok entry, w')))
      ⊎ (dismiss_tracker_suggestion user_id id w ≡ (ok tt, w'))
    → Later w' v
    → ((e : Error) × ((approve_tracker_suggestion digest' user_id id v).0 ≡ err e)
        × ((approve_tracker_suggestion digest' user_id id v).1.content ≡ v.content))
      × ((e : Error) × ((dismiss_tracker_suggestion user_id id v).0 ≡ err e)
          × ((dismiss_tracker_suggestion user_id id v).1.content ≡ v.content))
review_once digest digest' user_id id w w' v (inl (entry, e)) l =
    let h : (approve_tracker_suggestion digest user_id id w).0 ≡ ok entry = rw e refl in
    refused_later user_id id w' v digest'
      (subst (λ p. Done user_id id p.1) e
        (
          approve-HasId user_id id digest user_id id w (approve-opens user_id id digest w entry h),
          approve-Reviews user_id id digest w entry h,
        ))
      l
review_once digest digest' user_id id w w' v (inr e) l =
    let h : (dismiss_tracker_suggestion user_id id w).0 ≡ ok tt = rw e refl in
    refused_later user_id id w' v digest'
      (subst (λ p. Done user_id id p.1) e
        (
          dismiss-HasId user_id id user_id id w (dismiss-opens user_id id w h),
          dismiss-Reviews user_id id w tt h,
        ))
      l
