-- ===== src/Handlers/Reply.antt =====
-- What a handler of internal/handlers/server.go answers: a value, or a status code and a message
-- (`writeError`).
use be_miawai.Base.{ℕ, Option, none, some, Bool, Text, String, codes, if◌then◌else◌}
use be_miawai.Database.World.{World, Result, ok, err, M, Error, Query, no_rows}

pub record Reply : Type 0 where
  pub code : ℕ
  pub message : Text

abbrev pub Handler : Type 0 → Type 0
Handler A = M Reply A

abbrev pub reply : ℕ → String → Reply
reply code message = record { code = code; message = codes message }

-- `if test { writeError(…); return }`
abbrev pub deny_if : Bool → ℕ → String → Handler (Unit {0})
deny_if test code message w = (if test then err (reply code message) else ok tt, w)

-- A value that decoding, a lookup or another service gave, or the answer where it gave none.
abbrev pub required : {A : Type 0} → Option A → ℕ → String → Handler A
required none code message w = (err (reply code message), w)
required (some a) code message w = (ok a, w)

abbrev pub relabel :
    {A : Type 0} → (Error → Reply) → Result Error A × World → Result Reply A × World
relabel f (ok a, w) = (ok a, w)
relabel f (err e, w) = (err (f e), w)

-- A call of the store, and the answer to each of its errors.
abbrev pub from_store : {A : Type 0} → (Error → Reply) → Query A → Handler A
from_store f m w = relabel f (m w)

-- A call whose error is ignored.
abbrev pub attempt : {A : Type 0} → Query A → Handler (Unit {0})
attempt m w = (ok tt, (m w).1)

-- One answer where there is no row, and another where the store fails.
abbrev pub missing_or : Reply → Reply → Error → Reply
missing_or missing failed no_rows = missing
missing_or missing failed _ = failed
