-- ===== src/Database/Jobs/Claims.antt =====
-- What a worker claims (`ClaimDueMemoryExtractionJobs` of internal/database/memory_store.go).
use be_miawai.Base.{
  ℕ, ◌+◌, ◌≡◌, ◌<◌, refl, List, [], ◌∷◌, ◌&&◌, true, false, inl, inr, Text, text_eq, arith,
  Bool-cases, ltb, map, ◌∙◌, ◌≤◌,
}
use be_miawai.Base.Lists.{All, Any, contains, length, All-mono}
use be_miawai.Database.World.{JobRow, World, Calm, ok}
use be_miawai.Database.Rows.{any_row}
use be_miawai.Database.Jobs.{
  is_job, is_due, start_job, claim_rows, claim_due_memory_extraction_jobs,
}
use be_miawai.Database.Jobs.Machine.{claim, stop, next}
use be_miawai.Database.Jobs.Moves.{
  Moves, no_row, one_row, HasUniqueJobs, AreRunning, AreDistinct, running_cons,
}
use be_miawai.Base.Ints.{ℤ, limit_or}

abbrev pub ids_of : List JobRow → List Text
ids_of = map (λ r. r.job.id)

module _ (limit now : ℕ) where
  -- No more rows are taken than the limit lets, and where it lets more, no row is due any more.
  pub claim_rows_exhaust :
      (rs : List JobRow)
      → (length (claim_rows limit now rs).taken + (claim_rows limit now rs).left ≡ limit)
        × (0 < (claim_rows limit now rs).left
            → any_row (is_due now) (claim_rows limit now rs).table ≡ false)
  unfolding claim_rows any_row text_eq
  claim_rows_exhaust [] = (omega arith, λ h. refl)
  claim_rows_exhaust (r ∷ rs) =
      elim (Bool-cases (is_due now r && ltb 0 (claim_rows limit now rs).left)) [
        | inl t ↦ ground (arith, t, claim_rows_exhaust rs)
        | inr t ↦ ground (arith, t, claim_rows_exhaust rs)
      ]

  -- Every row that is taken was in the table and due.
  pub claim_rows-Any :
      (rs : List JobRow)
      → All
          (λ s. Any (λ r. (is_due now r ≡ true) × (s ≡ start_job now r)) rs)
          (claim_rows limit now rs).taken
  unfolding claim_rows
  claim_rows-Any [] = tt
  claim_rows-Any (r ∷ rs) =
      let rest : All (λ s. Any (λ q. (is_due now q ≡ true) × (s ≡ start_job now q)) (r ∷ rs))
          (claim_rows limit now rs).taken =
        All-mono (claim_rows limit now rs).taken (λ s h. inr h) (claim_rows-Any rs) in
      elim (Bool-cases (is_due now r && ltb 0 (claim_rows limit now rs).left)) [
        | inl t ↦ rw t (inl (ground (arith, t), refl), rest)
        | inr t ↦ rw t rest
      ]

  -- A claim moves the rows by steps of the machine, and keeps their ids.
  pub claim_rows-Moves : (rs : List JobRow) → Moves rs (claim_rows limit now rs).table
  unfolding claim_rows
  claim_rows-Moves [] = no_row
  claim_rows-Moves (r ∷ rs) =
      elim (Bool-cases (is_due now r && ltb 0 (claim_rows limit now rs).left)) [
        | inl t ↦ rw t (
            one_row 1 r (start_job now r) rs (claim_rows limit now rs).table
              (next 1 0 r (start_job now r) (start_job now r) (claim now r (ground (arith, t)))
                (stop (start_job now r)))
              (claim_rows-Moves rs))
        | inr t ↦
            rw t (one_row 0 r r rs (claim_rows limit now rs).table (stop r) (claim_rows-Moves rs))
      ]

  claim_rows_ids :
      (id : Text) (rs : List JobRow)
      → any_row (is_job id) (claim_rows limit now rs).table ≡ any_row (is_job id) rs
  unfolding claim_rows any_row
  claim_rows_ids id [] = refl
  claim_rows_ids id (r ∷ rs) =
      elim (Bool-cases (is_due now r && ltb 0 (claim_rows limit now rs).left)) [
        | inl t ↦ ground (arith, t, claim_rows_ids id rs)
        | inr t ↦ ground (arith, t, claim_rows_ids id rs)
      ]

  claim_rows_taken :
      (id : Text) (rs : List JobRow)
      → contains (ids_of (claim_rows limit now rs).taken) id ≡ true
      → any_row (is_job id) rs ≡ true
  unfolding claim_rows any_row contains
  claim_rows_taken id [] h = cc
  claim_rows_taken id (r ∷ rs) h =
      elim (Bool-cases (is_due now r && ltb 0 (claim_rows limit now rs).left)) [
        | inl t ↦ ground (arith, t, h, claim_rows_taken id rs)
        | inr t ↦ ground (arith, t, h, claim_rows_taken id rs)
      ]

  -- A claim keeps the ids unique, and takes no job twice.
  pub claim_rows-HasUniqueJobs :
      (rs : List JobRow)
      → HasUniqueJobs rs
      → HasUniqueJobs (claim_rows limit now rs).table
        × AreDistinct (ids_of (claim_rows limit now rs).taken)
  unfolding claim_rows
  claim_rows-HasUniqueJobs [] u = (tt, tt)
  claim_rows-HasUniqueJobs (r ∷ rs) (n, u) =
      elim (Bool-cases (is_due now r && ltb 0 (claim_rows limit now rs).left)) [
        | inl t ↦ ground (
          arith,
          t,
          n,
          claim_rows-HasUniqueJobs rs u,
          claim_rows_ids r.job.id rs,
          claim_rows_taken r.job.id rs,
        )
        | inr t ↦ ground (arith, t, n, claim_rows-HasUniqueJobs rs u, claim_rows_ids r.job.id rs)
      ]

  -- The jobs that are taken run.
  pub claim_rows-AreRunning :
      (rs : List JobRow)
      → HasUniqueJobs rs
      → AreRunning (ids_of (claim_rows limit now rs).taken) (claim_rows limit now rs).table
  unfolding claim_rows
  claim_rows-AreRunning [] u = tt
  claim_rows-AreRunning (r ∷ rs) (n, u) =
      let rest = claim_rows-AreRunning rs u in
      elim (Bool-cases (is_due now r && ltb 0 (claim_rows limit now rs).left)) [
        | inl t ↦ rw t (
          (λ c. refl),
          running_cons r.job.id (ids_of (claim_rows limit now rs).taken)
              (claim_rows limit now rs).table rest (claim_rows_ids r.job.id rs ∙ n),
        )
        | inr t ↦ rw t ((λ c. ground (arith, c, n, claim_rows_taken r.job.id rs)), rest)
      ]

-- Where no statement fails, a claim answers with jobs that were in the table and due, no more than
-- its limit, and with fewer only where no job is left that is due; it moves the rows by steps of
-- their machine.
pub claim_due_memory_extraction_jobs_sound :
    (limit : ℤ) (w : World)
    → Calm w
    → let after = claim_due_memory_extraction_jobs limit w in
      (taken : List JobRow) × (after.0 ≡ ok taken)
      × All
          (λ s. Any (λ r. (is_due w.now r ≡ true) × (s ≡ start_job w.now r)) w.content.memory_jobs)
          taken
      × (length taken ≤ limit_or 20 5 limit)
      × (length taken < limit_or 20 5 limit
          → any_row (is_due w.now) after.1.content.memory_jobs ≡ false)
      × Moves w.content.memory_jobs after.1.content.memory_jobs
unfolding claim_due_memory_extraction_jobs
claim_due_memory_extraction_jobs_sound limit w c =
    let n : ℕ = limit_or 20 5 limit in
    let (sum, none_left) = claim_rows_exhaust n w.now w.content.memory_jobs in
    rw c (
      (claim_rows n w.now w.content.memory_jobs).taken,
      refl,
      claim_rows-Any n w.now w.content.memory_jobs,
      omega (arith, sum),
      (λ h. none_left (omega (arith, sum, h))),
      claim_rows-Moves n w.now w.content.memory_jobs,
    )
