-- ===== src/Handlers/Extraction/Drain.antt =====
-- The worker loop of internal/handlers/server.go: it ends, and it moves the jobs by the steps of
-- their machine only.
use be_miawai.Base.{
  zero, ℕ, ◌+◌, ◌-◌, ◌*◌, ◌≡◌, ◌≤◌, refl, List, [], ◌∷◌, inl, inr, Text, arith, Bool-cases,
  if◌then◌else◌, text_eq, ◌&&◌, ltb, ◌<◌, suc, true,
}
use be_miawai.Base.Lists.{length}
use be_miawai.Models.{RuntimeSettings}
use be_miawai.Database.World.{World, JobRow, Result, Error, err, ok, failing}
use be_miawai.Database.Rows.{update_rows}
use be_miawai.Database.Jobs.{
  is_queued, is_job, is_due, finish_job, fail_job, claim_rows, claim_due_memory_extraction_jobs,
}
use be_miawai.Database.Jobs.Machine.{finish, fail}
use be_miawai.Database.Jobs.Moves.{
  Moves, Moves-refl, Moves-trans, AreRunning, AreDistinct, update_rows-Moves, running_tail,
  HasUniqueJobs, Moves-HasUniqueJobs,
}
use be_miawai.Database.Jobs.Claims.{
  ids_of, claim_rows-Moves, claim_rows-HasUniqueJobs, claim_rows-AreRunning,
}
use be_miawai.Handlers.Extraction.{
  Extractor, process_memory_extraction_job, process_jobs, process_due_memory_extraction_jobs,
  next_turn,
}
use be_miawai.Handlers.Extraction.Outcomes.{
  Outcome, unsettled, settled, given_up, process_memory_extraction_job-Outcome,
}
use be_miawai.Base.Ints.{limit_or, pos}

-- What is left to do for a job: two for each attempt, and one for the wait in the queue.
abbrev pub weight : JobRow → ℕ
weight r = 2 * (r.max_attempts - r.job.attempts) + (if is_queued r.job.status then 1 else 0)

unfoldable pub weights : List JobRow → ℕ
weights [] = 0
weights (r ∷ rs) = weight r + weights rs

-- A claim takes one from every job that it takes.
weights-claim :
    (limit now : ℕ) (rs : List JobRow)
    → weights (claim_rows limit now rs).table + length (claim_rows limit now rs).taken ≡ weights rs
unfolding weights claim_rows text_eq
weights-claim limit now [] = refl
weights-claim limit now (r ∷ rs) =
    elim (Bool-cases (is_due now r && ltb 0 (claim_rows limit now rs).left)) [
      | inl t ↦ ground (arith, t, weights-claim limit now rs)
      | inr t ↦ ground (arith, t, weights-claim limit now rs)
    ]

weights-update_rows :
    (id : Text) (change : JobRow → JobRow) (rs : List JobRow)
    → ((r : JobRow) → weight (change r) ≤ weight r)
    → weights (update_rows (is_job id) change rs) ≤ weights rs
unfolding weights update_rows
weights-update_rows id change [] k = omega arith
weights-update_rows id change (r ∷ rs) k = ground (arith, k r, weights-update_rows id change rs k)

weight-finish : (now : ℕ) (r : JobRow) → weight (finish_job now r) ≤ weight r
unfolding text_eq
weight-finish now r = ground arith

weight-fail : (now : ℕ) (error : Text) (r : JobRow) → weight (fail_job now error r) ≤ weight r
unfolding text_eq
weight-fail now error r = ground arith

weights-Outcome : (id : Text) (rs ss : List JobRow) → Outcome id rs ss → weights ss ≤ weights rs
weights-Outcome id rs _ unsettled = omega arith
weights-Outcome id rs _ (settled now) =
    weights-update_rows id (finish_job now) rs (weight-finish now)
weights-Outcome id rs _ (given_up now error) =
    weights-update_rows id (fail_job now error) rs (weight-fail now error)

Outcome-Moves :
    (id : Text) (ids : List Text) (rs ss : List JobRow)
    → AreDistinct (id ∷ ids)
    → AreRunning (id ∷ ids) rs
    → Outcome id rs ss
    → Moves rs ss × AreRunning ids ss
Outcome-Moves id ids rs _ d h unsettled = (Moves-refl rs, running_tail id ids rs h)
Outcome-Moves id ids rs _ d h (settled now) =
    update_rows-Moves id ids (finish_job now) (λ r e. (finish now r e, refl)) d rs h
Outcome-Moves id ids rs _ d h (given_up now error) =
    update_rows-Moves id ids (fail_job now error) (λ r e. (fail now error r e, refl)) d rs h

module _ (x : Extractor) (fallback : RuntimeSettings) where
  process_jobs-Moves :
      (rs : List JobRow) (w : World)
      → AreDistinct (ids_of rs)
      → AreRunning (ids_of rs) w.content.memory_jobs
      → Moves w.content.memory_jobs (process_jobs x fallback rs w).content.memory_jobs
        × (weights (process_jobs x fallback rs w).content.memory_jobs
            ≤ weights w.content.memory_jobs)
  unfolding process_jobs
  process_jobs-Moves [] w d h = (Moves-refl w.content.memory_jobs, omega arith)
  process_jobs-Moves (r ∷ rs) w d h =
      let v : World = process_memory_extraction_job x fallback r.job w in
      let o = process_memory_extraction_job-Outcome x r.job fallback w in
      let (moved, live) =
        Outcome-Moves r.job.id (ids_of rs) w.content.memory_jobs v.content.memory_jobs d h o in
      let (rest, less) = process_jobs-Moves rs v d.1 live in
      (
        Moves-trans w.content.memory_jobs v.content.memory_jobs
            (process_jobs x fallback rs v).content.memory_jobs moved rest,
        omega (arith, less, weights-Outcome r.job.id w.content.memory_jobs v.content.memory_jobs o),
      )

-- What a claim gives, after a world with the given jobs.
abbrev Claimed : List JobRow → Result Error (List JobRow) × World → Type 0
Claimed rs (err e, w) = w.content.memory_jobs ≡ rs
Claimed rs (ok taken, w) =
    Moves rs w.content.memory_jobs
    × AreDistinct (ids_of taken)
    × AreRunning (ids_of taken) w.content.memory_jobs
    × (weights w.content.memory_jobs + length taken ≡ weights rs)

claim-Claimed :
    (w : World)
    → HasUniqueJobs w.content.memory_jobs
    → Claimed w.content.memory_jobs (claim_due_memory_extraction_jobs (pos 3) w)
unfolding claim_due_memory_extraction_jobs limit_or
claim-Claimed w u = elim (Bool-cases (failing w.faults)) [
  | inl t ↦ rw t refl
  | inr t ↦ rw t (
    claim_rows-Moves 3 w.now w.content.memory_jobs,
    (claim_rows-HasUniqueJobs 3 w.now w.content.memory_jobs u).1,
    claim_rows-AreRunning 3 w.now w.content.memory_jobs u,
    weights-claim 3 w.now w.content.memory_jobs,
  )
]

module _ (x : Extractor) (fallback : RuntimeSettings) where
  -- A turn, where the turns after it do as they should.
  next_turn_ends :
      (n : ℕ) (rs : List JobRow) (r : Result Error (List JobRow) × World)
      → HasUniqueJobs rs
      → weights rs < suc n
      → Claimed rs r
      → ((w : World)
          → HasUniqueJobs w.content.memory_jobs
          → weights w.content.memory_jobs < n
          → ((process_due_memory_extraction_jobs x n fallback w).0 ≡ true)
            × Moves w.content.memory_jobs
                (process_due_memory_extraction_jobs x n fallback w).1.content.memory_jobs)
      → let after =
          next_turn x fallback (λ w. process_due_memory_extraction_jobs x n fallback w) r in
        (after.0 ≡ true) × Moves rs after.1.content.memory_jobs
  next_turn_ends n rs (err e, w) u less c k = (refl, rw c (Moves-refl rs))
  next_turn_ends n rs (ok [], w) u less (moved, d, live, count) k = (refl, moved)
  next_turn_ends n rs (ok (j ∷ js), w) u less (moved, d, live, count) k =
      let v : World = process_jobs x fallback (j ∷ js) w in
      let (moved', less') = process_jobs-Moves x fallback (j ∷ js) w d live in
      let all = Moves-trans rs w.content.memory_jobs v.content.memory_jobs moved moved' in
      let (ends, rest) =
        k v (Moves-HasUniqueJobs rs v.content.memory_jobs all u)
          (omega (arith, less, less', count)) in
      (
        ends,
        Moves-trans rs v.content.memory_jobs
            (process_due_memory_extraction_jobs x n fallback v).1.content.memory_jobs all rest,
      )

  -- The worker's loop ends by itself within as many turns as the weights of the jobs come to, and
  -- one more, where the job ids are distinct, whatever the model answers, however long it takes
  -- and whatever statements fail; and every job is then where steps of its machine have taken it.
  pub process_due_memory_extraction_jobs_ends :
      (n : ℕ) (w : World)
      → HasUniqueJobs w.content.memory_jobs
      → weights w.content.memory_jobs < n
      → ((process_due_memory_extraction_jobs x n fallback w).0 ≡ true)
        × Moves w.content.memory_jobs
            (process_due_memory_extraction_jobs x n fallback w).1.content.memory_jobs
  unfolding process_due_memory_extraction_jobs
  process_due_memory_extraction_jobs_ends zero w u less = absurd (omega arith)
  process_due_memory_extraction_jobs_ends (suc n) w u less =
      next_turn_ends n w.content.memory_jobs (claim_due_memory_extraction_jobs (pos 3) w) u less
        (claim-Claimed w u) (process_due_memory_extraction_jobs_ends n)
