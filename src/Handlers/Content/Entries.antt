-- ===== src/Handlers/Content/Entries.antt =====
-- Valid tracker entries, and computations that keep the entries valid.
use be_miawai.Base.{◌≡◌, true, false, some, none, ◌≤◌, Option, one_of, is_blank}
use be_miawai.Database.World.{◌>>=◌, ok, err, World, M, Error, Result, resume, Query}
use be_miawai.Models.{TrackerEntryInput}
use be_miawai.Base.Lists.{All}
use be_miawai.Handlers.Reply.{Reply, from_store, relabel}
use be_miawai.Database.Users.{or_no_rows}
use be_miawai.Handlers.Content.{tracker_modules}
use be_miawai.Base.Bytes.{byte_length}

-- An entry that `validateTrackerInput` accepts as it is stored.
abbrev pub IsValid : TrackerEntryInput → Type 0
IsValid entry =
    (one_of entry.topic tracker_modules ≡ true)
    × (is_blank entry.title ≡ false)
    × (byte_length entry.title ≤ 160)
    × (byte_length entry.detail ≤ 2000)

abbrev pub HasValidEntries : World → Type 0
HasValidEntries w = All (λ r. IsValid r.tracker.entry) w.content.tracker_entries

-- The computation keeps the entries valid.
module _ {E : Type 0} where
  abbrev pub Keeps : {A : Type 0} → M E A → Type 0
  Keeps m = (w : World) → HasValidEntries w → HasValidEntries (m w).1

  resume-Keeps :
      {A B : Type 0} (f : B → M E A) (r : Result E B × World)
      → ((b : B) → Keeps (f b))
      → HasValidEntries r.1
      → HasValidEntries (resume f r).1
  resume-Keeps f (ok b, w) k h = k b w h
  resume-Keeps f (err e, w) k h = h

  pub bind-Keeps :
      {A B : Type 0} (m : M E B) (f : B → M E A)
      → Keeps m
      → ((b : B) → Keeps (f b))
      → Keeps (m >>= f)
  bind-Keeps m f h k w v = resume-Keeps f (m w) k (h w v)

pub relabel-Keeps :
    {A : Type 0} (f : Error → Reply) (m : Query A) → Keeps m → Keeps (from_store f m)
relabel-Keeps {A} f m k w h = go (m w) (k w h)
  where
    go : (r : Result Error A × World) → HasValidEntries r.1 → HasValidEntries (relabel f r).1
    go (ok a, v) h = h
    go (err e, v) h = h

pub or_no_rows-Keeps : {A : Type 0} (a : Option A) → Keeps (or_no_rows a)
or_no_rows-Keeps (some a) w h = h
or_no_rows-Keeps none w h = h
