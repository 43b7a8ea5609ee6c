-- ===== src/Database/Jobs/Moves.antt =====
-- The rows of `memory_extraction_jobs` before and after: each by the steps of the machine.
use be_miawai.Base.{
  ℕ, ◌+◌, ◌≡◌, List, [], ◌∷◌, true, false, inl, inr, Text, text_eq_iff, arith, Bool-cases,
  if◌then◌else◌, ◌∙◌, refl,
}
use be_miawai.Base.Lists.{All, contains}
use be_miawai.Database.World.{JobRow}
use be_miawai.Database.Rows.{any_row, update_rows}
use be_miawai.Database.Jobs.{running, is_job}
use be_miawai.Database.Jobs.Machine.{
  Step, Run, stop, next, Run-append, IsSound, Run-bounded, claim, finish, fail,
}

-- Every row has come, by steps of the machine, from the row in its place.
pub data Moves : List JobRow → List JobRow → Type 0 where
  no_row : Moves [] []
  one_row :
      (n : ℕ) (r s : JobRow) (rs ss : List JobRow)
      → Run n r s
      → Moves rs ss
      → Moves (r ∷ rs) (s ∷ ss)

pub Moves-refl : (rs : List JobRow) → Moves rs rs
Moves-refl [] = no_row
Moves-refl (r ∷ rs) = one_row 0 r r rs rs (stop r) (Moves-refl rs)

pub Moves-trans : (rs ss ts : List JobRow) → Moves rs ss → Moves ss ts → Moves rs ts
Moves-trans _ _ _ no_row no_row = no_row
Moves-trans _ _ _ (one_row n r s rs ss run rest) (one_row m _ t _ ts run' rest') =
    one_row (n + m) r t rs ts (Run-append n m r s t run run') (Moves-trans rs ss ts rest rest')

-- Sound rows stay so.
pub Moves-IsSound : (rs ss : List JobRow) → Moves rs ss → All IsSound rs → All IsSound ss
Moves-IsSound _ _ no_row h = tt
Moves-IsSound _ _ (one_row n r s rs ss run rest) (h, hs) =
    ((Run-bounded n r s run h).0, Moves-IsSound rs ss rest hs)

-- The primary key.
abbrev pub HasUniqueJobs : List JobRow → Type 0
HasUniqueJobs [] = Unit
HasUniqueJobs (r ∷ rs) = (any_row (is_job r.job.id) rs ≡ false) × HasUniqueJobs rs

-- The rows of these jobs are running.
abbrev pub AreRunning : List Text → List JobRow → Type 0
AreRunning ids [] = Unit
AreRunning ids (r ∷ rs) =
    (contains ids r.job.id ≡ true → r.job.status ≡ running) × AreRunning ids rs

-- No id comes twice.
abbrev pub AreDistinct : List Text → Type 0
AreDistinct [] = Unit
AreDistinct (id ∷ ids) = (contains ids id ≡ false) × AreDistinct ids

-- What the worker's update of one job is: a step of the machine that keeps the id.
abbrev IsStep : (JobRow → JobRow) → Type 0
IsStep change =
    (r : JobRow) → r.job.status ≡ running → Step 0 r (change r) × ((change r).job.id ≡ r.job.id)

module _ (id : Text) (ids : List Text) (change : JobRow → JobRow) (step : IsStep change)
    (d : AreDistinct (id ∷ ids)) where
  row-Run :
      (r : JobRow)
      → (contains (id ∷ ids) r.job.id ≡ true → r.job.status ≡ running)
      → Run 0 r (if is_job id r then change r else r)
  unfolding contains
  row-Run r h = elim (Bool-cases (is_job id r)) [
    | inl t ↦
        let e : r.job.status ≡ running =
          ground (arith, t, h, text_eq_iff r.job.id id, text_eq_iff id r.job.id) in
        rw t (next 0 0 r (change r) (change r) (step r e).0 (stop (change r)))
    | inr t ↦ rw t (stop r)
  ]

  row_live :
      (r : JobRow)
      → (contains (id ∷ ids) r.job.id ≡ true → r.job.status ≡ running)
      → contains ids (if is_job id r then change r else r).job.id ≡ true
      → (if is_job id r then change r else r).job.status ≡ running
  unfolding contains
  row_live r h = elim (Bool-cases (is_job id r)) [
    | inl t ↦
        let e : r.job.status ≡ running =
          ground (arith, t, h, text_eq_iff r.job.id id, text_eq_iff id r.job.id) in
        λ c. ground (arith, t, c, (step r e).1, d, text_eq_iff r.job.id id)
    | inr t ↦ λ c. ground (arith, t, c, h)
  ]

  -- The worker's update of the job that comes first moves the rows, and leaves the others running.
  pub update_rows-Moves :
      (rs : List JobRow)
      → AreRunning (id ∷ ids) rs
      → Moves rs (update_rows (is_job id) change rs)
        × AreRunning ids (update_rows (is_job id) change rs)
  unfolding update_rows
  update_rows-Moves [] h = (no_row, tt)
  update_rows-Moves (r ∷ rs) (h, hs) =
      let (moved, live) = update_rows-Moves rs hs in
      (
        one_row 0 r (if is_job id r then change r else r) rs (update_rows (is_job id) change rs)
            (row-Run r h) moved,
        (row_live r h, live),
      )

-- A job that is not in the table may be added to those that run.
pub running_cons :
    (id : Text) (ids : List Text) (rs : List JobRow)
    → AreRunning ids rs
    → any_row (is_job id) rs ≡ false
    → AreRunning (id ∷ ids) rs
unfolding contains any_row
running_cons id ids [] h a = tt
running_cons id ids (r ∷ rs) (h, hs) a = (
  λ c. ground (arith, c, h, a, text_eq_iff r.job.id id, text_eq_iff id r.job.id),
  running_cons id ids rs hs (ground (arith, a)),
)

Step-keeps_id : (c : ℕ) (r s : JobRow) → Step c r s → s.job.id ≡ r.job.id
Step-keeps_id _ _ _ (claim now r d) = refl
Step-keeps_id _ _ _ (finish now r e) = refl
Step-keeps_id _ _ _ (fail now error r e) = refl

Run-keeps_id : (n : ℕ) (r s : JobRow) → Run n r s → s.job.id ≡ r.job.id
Run-keeps_id _ _ _ (stop r) = refl
Run-keeps_id _ _ _ (next c n r s t step rest) = Run-keeps_id n s t rest ∙ Step-keeps_id c r s step

Moves-keep_ids :
    (id : Text) (rs ss : List JobRow)
    → Moves rs ss
    → any_row (is_job id) ss ≡ any_row (is_job id) rs
unfolding any_row
Moves-keep_ids id _ _ no_row = refl
Moves-keep_ids id _ _ (one_row n r s rs ss run rest) =
    cc (Run-keeps_id n r s run, Moves-keep_ids id rs ss rest)

-- Rows that move keep their ids.
pub Moves-HasUniqueJobs : (rs ss : List JobRow) → Moves rs ss → HasUniqueJobs rs → HasUniqueJobs ss
Moves-HasUniqueJobs _ _ no_row u = tt
Moves-HasUniqueJobs _ _ (one_row n r s rs ss run rest) (h, u) = (
  cc (Run-keeps_id n r s run, Moves-keep_ids r.job.id rs ss rest, h),
  Moves-HasUniqueJobs rs ss rest u,
)

-- Fewer jobs that run.
pub running_tail :
    (id : Text) (ids : List Text) (rs : List JobRow) → AreRunning (id ∷ ids) rs → AreRunning ids rs
unfolding contains
running_tail id ids [] h = tt
running_tail id ids (r ∷ rs) (h, hs) = (λ c. ground (arith, c, h), running_tail id ids rs hs)
