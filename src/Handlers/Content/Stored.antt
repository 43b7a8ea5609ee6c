-- ===== src/Handlers/Content/Stored.antt =====
-- The operations of internal/database/tracker_store.go keep the entries valid.
use be_miawai.Base.{
  [], ◌∷◌, ◌≡◌, inl, inr, refl, true, false, some, one_of, Text, text_eq, Bool, arith, List, Option,
  is_blank, Bool-cases, codes, ltb, not,
}
use be_miawai.Database.World.{
  ◌>>=◌, ◌>>◌, TrackerRow, Query, World, gets, modify, statement, raise_if, new_id, constraint,
  no_rows, pure,
}
use be_miawai.Models.{TrackerEntryInput, TrackerEntry}
use be_miawai.Database.Trackers.{
  normalize_tracker_input, update_tracker_entry, delete_tracker_entry, normalize_tracker_module,
  upsert_entry, create_tracker_entry, new_entry, tracker_content_hash, is_entry, same_entry,
  refresh_entry,
}
use be_miawai.Base.Strings.{folded, trim_space}
use be_miawai.Handlers.Content.Entries.{IsValid, Keeps, bind-Keeps, or_no_rows-Keeps}
use be_miawai.Handlers.Content.{tracker_modules}
use be_miawai.Base.Lists.{All}
use be_miawai.Database.Rows.{first_row, any_row, touch_rows}
use be_miawai.Database.Users.{or_no_rows}
use be_miawai.Database.Rows.Every.{All-touch_rows}
use be_miawai.Base.Bytes.{byte_length}

-- What the validation accepts, is stored valid.
abbrev pub IsAccepted : TrackerEntryInput → Type 0
IsAccepted input =
    (one_of (folded input.topic) tracker_modules ≡ true)
    × (is_blank (trim_space input.title) ≡ false)
    × (ltb 160 (byte_length (trim_space input.title)) ≡ false)
    × (ltb 2000 (byte_length (trim_space input.detail)) ≡ false)

module_known : (s : Text) → one_of s tracker_modules ≡ true → is_blank s ≡ false
unfolding one_of text_eq
module_known [] h = cc
module_known (c ∷ s) h = refl

pub accepted-IsValid :
    (input : TrackerEntryInput) → IsAccepted input → IsValid (normalize_tracker_input input)
unfolding normalize_tracker_input normalize_tracker_module
accepted-IsValid input (m, t, l, d) =
    (rw (m, module_known (folded input.topic) m) m, t, ground (arith, l), ground (arith, d))

module _ (digest : Text → Text) where
  upsert-IsValid :
      (n : TrackerRow) (rs : List TrackerRow)
      → IsValid n.tracker.entry
      → All (λ r. IsValid r.tracker.entry) rs
      → All (λ r. IsValid r.tracker.entry) (upsert_entry n rs)
  unfolding upsert_entry
  upsert-IsValid n rs v h = elim (Bool-cases (any_row (same_entry n.user_id n.content_hash) rs)) [
    | inl t ↦ rw t (
        All-touch_rows (λ r. IsValid r.tracker.entry) (same_entry n.user_id n.content_hash)
          (refresh_entry n.tracker.entry n.tracker.updated_at) rs (λ r p. p) h)
    | inr t ↦ rw t (v, h)
  ]

  -- The entry is in the table, and read back.
  abbrev stored : Text → TrackerEntryInput → Text → Query TrackerEntry
  stored user_id input id = do
    modify (λ w. record w {
      content = record w.content {
        tracker_entries =
            upsert_entry
              (new_entry id user_id input (tracker_content_hash digest user_id input) w.now)
              w.content.tracker_entries;
      };
    })
    row ←
        or_no_rows
          (← gets (λ w.
            first_row (same_entry user_id (tracker_content_hash digest user_id input))
              w.content.tracker_entries))
    pure row.tracker

  stored-Keeps :
      (user_id id : Text) (input : TrackerEntryInput)
      → IsValid input
      → Keeps (stored user_id input id)
  stored-Keeps user_id id input v w h =
      let v' : World = record w {
        content = record w.content {
          tracker_entries =
              upsert_entry
                (new_entry id user_id input (tracker_content_hash digest user_id input) w.now)
                w.content.tracker_entries;
        };
      } in
      let row : Option TrackerRow =
        first_row (same_entry user_id (tracker_content_hash digest user_id input))
          v'.content.tracker_entries in
      bind-Keeps (or_no_rows row) (λ r. pure r.tracker) (or_no_rows-Keeps row) (λ r w h. h) v'
        (upsert-IsValid
          (new_entry id user_id input (tracker_content_hash digest user_id input) w.now)
          w.content.tracker_entries v h)

  abbrev insertion : Text → TrackerEntryInput → Text → Query TrackerEntry
  insertion user_id input id = do
    statement
    clash ← gets (λ w. any_row (λ r. text_eq r.tracker.id id) w.content.tracker_entries)
    raise_if clash constraint
    stored user_id input id

  insertion-Keeps :
      (user_id id : Text) (input : TrackerEntryInput)
      → IsValid input
      → Keeps (insertion user_id input id)
  insertion-Keeps user_id id input v =
      let rest : Bool → Query TrackerEntry =
        λ clash. raise_if clash constraint >> stored user_id input id in
      let read : Query Bool =
        gets (λ w. any_row (λ r. text_eq r.tracker.id id) w.content.tracker_entries) in
      bind-Keeps statement (λ u. read >>= rest) (λ w h. h)
        λ u.
          bind-Keeps read rest (λ w h. h)
            λ clash.
              bind-Keeps (raise_if clash constraint) (λ u. stored user_id input id) (λ w h. h)
                λ u. stored-Keeps user_id id input v

  pub create-Keeps :
      (user_id : Text) (input : TrackerEntryInput)
      → IsAccepted input
      → Keeps (create_tracker_entry digest user_id input)
  unfolding create_tracker_entry
  create-Keeps user_id input a =
      bind-Keeps (new_id (codes "trk")) (insertion user_id (normalize_tracker_input input))
        (λ w h. h)
        λ id. insertion-Keeps user_id id (normalize_tracker_input input) (accepted-IsValid input a)

-- An update of entries, and what follows.
change-Keeps :
    {A : Type 0} (test : TrackerRow → Bool) (change : World → TrackerRow → TrackerRow) (k : Query A)
    → ((w : World) (r : TrackerRow) → IsValid r.tracker.entry → IsValid (change w r).tracker.entry)
    → Keeps k
    → Keeps (
        modify (λ w. record w {
          content = record w.content {
            tracker_entries = touch_rows test (change w) w.content.tracker_entries;
          };
        })
        >> k)
change-Keeps test change k v q w h =
    q
      (record w {
        content = record w.content {
          tracker_entries = touch_rows test (change w) w.content.tracker_entries;
        };
      })
      (All-touch_rows (λ r. IsValid r.tracker.entry) test (change w) w.content.tracker_entries (v w)
        h)

pub update-Keeps :
    (user_id id : Text) (input : TrackerEntryInput)
    → IsAccepted input
    → Keeps (update_tracker_entry user_id id input)
unfolding update_tracker_entry
update-Keeps user_id id input a =
    let read : Query (Option TrackerRow) =
      gets (λ w. first_row (is_entry user_id id) w.content.tracker_entries) in
    let rest : Query TrackerEntry = (read >>= or_no_rows) >>= λ row. pure row.tracker in
    let change : World → TrackerRow → TrackerRow = λ w r. record r {
      tracker = record r.tracker { entry = normalize_tracker_input input; updated_at = w.now };
    } in
    let change_all : Query (Unit {0}) = modify (λ w. record w {
      content = record w.content {
        tracker_entries = touch_rows (is_entry user_id id) (change w) w.content.tracker_entries;
      };
    }) in
    bind-Keeps statement (λ u. change_all >> rest) (λ w h. h)
      λ u.
        change-Keeps (is_entry user_id id) change rest (λ w r p. accepted-IsValid input a)
          (bind-Keeps (read >>= or_no_rows) (λ row. pure row.tracker)
            (bind-Keeps read or_no_rows (λ w h. h) or_no_rows-Keeps) (λ row w h. h))

pub delete-Keeps : (user_id id : Text) → Keeps (delete_tracker_entry user_id id)
unfolding delete_tracker_entry
delete-Keeps user_id id =
    let read : Query Bool = gets (λ w. any_row (is_entry user_id id) w.content.tracker_entries) in
    let change : World → TrackerRow → TrackerRow = λ w r. record r {
      deleted_at = some w.now;
      tracker = record r.tracker { updated_at = w.now };
    } in
    let rest : Bool → Query (Unit {0}) = λ found.
      modify (λ w. record w {
        content = record w.content {
          tracker_entries = touch_rows (is_entry user_id id) (change w) w.content.tracker_entries;
        };
      })
      >> raise_if (not found) no_rows in
    bind-Keeps statement (λ u. read >>= rest) (λ w h. h)
      λ u.
        bind-Keeps read rest (λ w h. h)
          λ found.
            change-Keeps (is_entry user_id id) change (raise_if (not found) no_rows) (λ w r p. p)
              (λ w h. h)
