-- ===== src/Database/Jobs/Machine.antt =====
-- The states of one memory extraction job (internal/database/memory_store.go) as a machine.
use be_miawai.Base.{
  ℕ, ◌+◌, ◌-◌, ◌≤◌, ◌<◌, ◌≡◌, true, ◌||◌, Text, text_eq, arith, if◌then◌else◌, subst,
}
use be_miawai.Database.World.{JobRow}
use be_miawai.Database.Jobs.{running, failed, is_queued, is_due, start_job, finish_job, fail_job}

-- What may happen to a job, with the number of claims in it: a worker claims the job when it is
-- due, and the worker that runs it finishes it or fails it.
pub data Step : ℕ → JobRow → JobRow → Type 0 where
  claim : (now : ℕ) (r : JobRow) → is_due now r ≡ true → Step 1 r (start_job now r)
  finish : (now : ℕ) (r : JobRow) → r.job.status ≡ running → Step 0 r (finish_job now r)
  fail :
      (now : ℕ) (error : Text) (r : JobRow)
      → r.job.status ≡ running
      → Step 0 r (fail_job now error r)

-- Steps one after the other.
pub data Run : ℕ → JobRow → JobRow → Type 0 where
  stop : (r : JobRow) → Run 0 r r
  next : (c n : ℕ) (r s t : JobRow) → Step c r s → Run n s t → Run (c + n) r t

-- Between two steps: the attempts that are used up.
pub record IsSound (r : JobRow) : Type 0 where
  pub capped : r.job.attempts ≤ r.max_attempts
  pub live :
      is_queued r.job.status || text_eq r.job.status running ≡ true
      → r.job.attempts < r.max_attempts
  pub spent : r.job.status ≡ failed → r.job.attempts ≡ r.max_attempts

start_job-IsSound :
    (now : ℕ) (r : JobRow) → is_due now r ≡ true → IsSound r → IsSound (start_job now r)
unfolding text_eq
start_job-IsSound now r d h = ground (arith, h.capped)

finish_job-IsSound : (now : ℕ) (r : JobRow) → IsSound r → IsSound (finish_job now r)
unfolding text_eq
finish_job-IsSound now r h = ground (arith, h.capped)

fail_job-IsSound :
    (now : ℕ) (error : Text) (r : JobRow)
    → r.job.status ≡ running
    → IsSound r
    → IsSound (fail_job now error r)
unfolding text_eq
fail_job-IsSound now error r s h = ground (arith, h.live)

-- How many times a job may still be claimed.
unfoldable pub claims_left : JobRow → ℕ
claims_left r =
    if is_queued r.job.status
    then r.max_attempts - r.job.attempts
    else if text_eq r.job.status running
    then r.max_attempts - r.job.attempts - 1
    else 0

claims_left-claim :
    (now : ℕ) (r : JobRow) → is_due now r ≡ true → claims_left (start_job now r) + 1 ≡ claims_left r
unfolding claims_left text_eq
claims_left-claim now r d = ground arith

claims_left-finish : (now : ℕ) (r : JobRow) → claims_left (finish_job now r) ≡ 0
unfolding claims_left text_eq
claims_left-finish now r = ground arith

claims_left-fail :
    (now : ℕ) (error : Text) (r : JobRow)
    → r.job.status ≡ running
    → claims_left (fail_job now error r) ≤ claims_left r
unfolding claims_left text_eq
claims_left-fail now error r e = ground arith

Step-bounded :
    (c : ℕ) (r s : JobRow)
    → Step c r s
    → IsSound r
    → IsSound s × (c + claims_left s ≤ claims_left r)
Step-bounded _ _ _ (claim now r d) h =
    ground (arith, start_job-IsSound now r d h, claims_left-claim now r d)
Step-bounded _ _ _ (finish now r e) h =
    ground (arith, finish_job-IsSound now r h, claims_left-finish now r)
Step-bounded _ _ _ (fail now error r e) h =
    ground (arith, fail_job-IsSound now error r e h, claims_left-fail now error r e)

-- From a sound job, after any steps of its machine, the job is sound (its attempts are at most the
-- maximum, below it while it waits or runs, and equal to it once it is failed), and the claims so
-- far and those that are left are no more than were left at first.
pub Run-bounded :
    (n : ℕ) (r s : JobRow) → Run n r s → IsSound r → IsSound s × (n + claims_left s ≤ claims_left r)
Run-bounded _ _ _ (stop r) h = (h, omega arith)
Run-bounded _ _ _ (next c n r s t step rest) h =
    ground (arith, Step-bounded c r s step h, Run-bounded n s t rest)

-- Steps after steps.
pub Run-append : (n m : ℕ) (r s t : JobRow) → Run n r s → Run m s t → Run (n + m) r t
Run-append _ m _ s t (stop r) rest = subst (λ k. Run k s t) (omega arith) rest
Run-append _ m _ s u (next b n r q s' first mid) rest =
    subst (λ k. Run k r u) (omega arith)
      (next b (n + m) r q u first (Run-append n m q s u mid rest))
