-- ===== src/Handlers/Content/Valid.antt =====
-- What the tracker requests of internal/handlers/server.go let into the table.
use be_miawai.Base.{
  [], ◌∷◌, inl, inr, some, none, Option, Text, List, ℕ, String, Bool-cases, one_of, is_blank, ltb,
}
use be_miawai.Database.World.{◌>>=◌, ◌>>◌, World, Error, Query}
use be_miawai.Handlers.Content.{
  validate_tracker_input, create_entry, update_entry, delete_entry, tracker_modules, no_tracker,
}
use be_miawai.Models.{TrackerEntryInput, User}
use be_miawai.Handlers.Reply.{Handler, Reply, required, reply, from_store}
use be_miawai.Handlers.Content.Stored.{IsAccepted, create-Keeps, update-Keeps, delete-Keeps}
use be_miawai.Handlers.Content.Entries.{Keeps, HasValidEntries, relabel-Keeps}
use be_miawai.Database.Trackers.{create_tracker_entry, update_tracker_entry, delete_tracker_entry}
use be_miawai.Base.Strings.{folded, trim_space}
use be_miawai.Base.Bytes.{byte_length}

-- The requests that change entries.
pub data TrackerRequest : Type 0 where
  create : Option TrackerEntryInput → TrackerRequest
  update : Text → Option TrackerEntryInput → TrackerRequest
  delete : Text → TrackerRequest

-- The world after a request of a user.
abbrev pub run_request : (Text → Text) → User × TrackerRequest → World → World
run_request digest (user, create decoded) w = (create_entry digest user decoded w).1
run_request digest (user, update id decoded) w = (update_entry user id decoded w).1
run_request digest (user, delete id) w = (delete_entry user id w).1

abbrev pub run_requests : (Text → Text) → List (User × TrackerRequest) → World → World
run_requests digest [] w = w
run_requests digest (r ∷ rs) w = run_requests digest rs (run_request digest r w)

validated-Keeps :
    {A : Type 0} (input : TrackerEntryInput) (k : Handler A)
    → (IsAccepted input → Keeps k)
    → Keeps (validate_tracker_input input >> k)
unfolding validate_tracker_input
validated-Keeps input k q w h = elim (Bool-cases (one_of (folded input.topic) tracker_modules)) [
  | inr m ↦ rw m h
  | inl m ↦ elim (Bool-cases (is_blank (trim_space input.title))) [
    | inl t ↦ rw (m, t) h
    | inr t ↦ elim (Bool-cases (ltb 160 (byte_length (trim_space input.title)))) [
      | inl l ↦ rw (m, t, l) h
      | inr l ↦ elim (Bool-cases (ltb 2000 (byte_length (trim_space input.detail)))) [
        | inl d ↦ rw (m, t, l, d) h
        | inr d ↦ rw (m, t, l, d) (q (m, t, l, d) w h)
      ]
    ]
  ]
]

required-Keeps :
    {A B : Type 0} (a : Option B) (code : ℕ) (message : String) (k : B → Handler A)
    → ((b : B) → Keeps (k b))
    → Keeps (required a code message >>= k)
required-Keeps none code message k q w h = h
required-Keeps (some b) code message k q w h = q b w h

-- A body that is decoded and validated, and a call of the store with it.
entry-Keeps :
    {A : Type 0} (decoded : Option TrackerEntryInput) (failed : Error → Reply)
    (call : TrackerEntryInput → Query A)
    → ((input : TrackerEntryInput) → IsAccepted input → Keeps (call input))
    → Keeps (
        required decoded 400 "invalid json body" >>= λ input.
        validate_tracker_input input >> from_store failed (call input))
entry-Keeps decoded failed call k =
    required-Keeps decoded 400 "invalid json body"
      (λ input. validate_tracker_input input >> from_store failed (call input))
      λ input.
        validated-Keeps input (from_store failed (call input))
          λ a. relabel-Keeps failed (call input) (k input a)

run_request-IsValid :
    (digest : Text → Text) (r : User × TrackerRequest) (w : World)
    → HasValidEntries w
    → HasValidEntries (run_request digest r w)
unfolding create_entry update_entry delete_entry
run_request-IsValid digest (user, create decoded) w h =
    entry-Keeps decoded (λ e. reply 500 "failed to create tracker entry")
      (create_tracker_entry digest user.id) (create-Keeps digest user.id) w h
run_request-IsValid digest (user, update id decoded) w h =
    entry-Keeps decoded (no_tracker "failed to update tracker entry")
      (update_tracker_entry user.id id) (update-Keeps user.id id) w h
run_request-IsValid digest (user, delete id) w h =
    relabel-Keeps (no_tracker "failed to delete tracker entry") (delete_tracker_entry user.id id)
      (delete-Keeps user.id id) w h

-- After any requests of any users that create, update or delete tracker entries, whatever
-- statements fail, every entry is of one of the five modules, with a title that is not blank and
-- has at most 160 bytes, and a detail of at most 2000, if so it was before.
pub run_requests-IsValid :
    (digest : Text → Text) (requests : List (User × TrackerRequest)) (w : World)
    → HasValidEntries w
    → HasValidEntries (run_requests digest requests w)
run_requests-IsValid digest [] w h = h
run_requests-IsValid digest (r ∷ rs) w h =
    run_requests-IsValid digest rs (run_request digest r w) (run_request-IsValid digest r w h)
