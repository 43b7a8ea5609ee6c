-- ===== src/Database/Jobs.antt =====
-- The memory extraction jobs of internal/database/memory_store.go: a queue in a table.
pub mod Machine
pub mod Moves
pub mod Claims
use be_miawai.Base.{
  ℕ, ◌+◌, ◌-◌, ◌*◌, List, [], ◌∷◌, ◌++◌, Option, none, some, Bool, ◌&&◌, ◌||◌, Text, codes, text_eq,
  ltb, leb, if◌then◌else◌,
}
use be_miawai.Base.Strings.{trim_space}
use be_miawai.Base.Bytes.{byte_length, first_bytes}
use be_miawai.Base.Ints.{ℤ, limit_or}
use be_miawai.Models.{MemoryExtractionJob}
use be_miawai.Database.World.{
  World, Query, JobRow, constraint, db_fault, ok, err, pure, raise, raise_if, gets, modify, ◌>>=◌,
  ◌>>◌, statement, new_id,
}
use be_miawai.Database.Rows.{update_rows, any_row}

abbrev pub pending : Text
pending = codes "pending"

abbrev pub retry : Text
retry = codes "retry"

abbrev pub running : Text
running = codes "running"

abbrev pub done : Text
done = codes "done"

abbrev pub failed : Text
failed = codes "failed"

-- The row that the insertion makes, the columns it does not name by their defaults.
abbrev pub new_job : Text → Text → Text → Text → Text → ℕ → JobRow
new_job id user_id conversation_id user_message assistant_reply now = record {
  job = record {
    id = id;
    user_id = user_id;
    conversation_id = conversation_id;
    user_message = trim_space user_message;
    assistant_reply = trim_space assistant_reply;
    status = pending;
    attempts = 0;
    last_error = [];
    run_after = now;
    created_at = now;
    updated_at = now;
  };
  max_attempts = 3;
  locked_at = none;
}

-- `WHERE id = $1`
abbrev pub is_job : Text → JobRow → Bool
is_job id r = text_eq r.job.id id

unfoldable pub enqueue_memory_extraction_job : Text → Text → Text → Text → Query MemoryExtractionJob
unfolding any_row
enqueue_memory_extraction_job user_id conversation_id user_message assistant_reply = do
  id ← new_id (codes "memjob")
  statement
  clash ← gets (λ w. any_row (is_job id) w.content.memory_jobs)
  raise_if clash constraint
  now ← gets (λ w. w.now)
  let row = new_job id user_id conversation_id user_message assistant_reply now
  modify
      (λ w. record w { content = record w.content { memory_jobs = row ∷ w.content.memory_jobs } })
  pure row.job

-- `status IN ('pending', 'retry')`
abbrev pub is_queued : Text → Bool
is_queued status = text_eq status pending || text_eq status retry

-- `… AND run_after <= NOW() AND attempts < max_attempts`
abbrev pub is_due : ℕ → JobRow → Bool
is_due now r =
    is_queued r.job.status && (leb r.job.run_after now && ltb r.job.attempts r.max_attempts)

-- `SET status = 'running', locked_at = NOW(), updated_at = NOW()`
abbrev pub start_job : ℕ → JobRow → JobRow
start_job now r = record r {
  job = record r.job { status = running; updated_at = now };
  locked_at = some now;
}

-- What an update that claims jobs leaves of its limit, the rows that it returns, and the table.
pub record Claimed : Type 0 where
  pub left : ℕ
  pub taken : List JobRow
  pub table : List JobRow

abbrev pub claim_row : ℕ → JobRow → Claimed → Claimed
claim_row now r c =
    if is_due now r && ltb 0 c.left
    then record {
      left = c.left - 1;
      taken = start_job now r ∷ c.taken;
      table = start_job now r ∷ c.table;
    }
    else record c { table = r ∷ c.table }

-- The update of the due rows that were created first; the last row of the table is the oldest. RETURNING
-- promises no order; here it is the table's.
unfoldable pub claim_rows : ℕ → ℕ → List JobRow → Claimed
claim_rows limit now [] = record { left = limit; taken = []; table = [] }
claim_rows limit now (r ∷ rs) = claim_row now r (claim_rows limit now rs)

unfoldable pub claim_due_memory_extraction_jobs : ℤ → Query (List JobRow)
unfolding claim_rows limit_or
claim_due_memory_extraction_jobs limit = do
  statement
  now ← gets (λ w. w.now)
  claimed ← gets (λ w. claim_rows (limit_or 20 5 limit) now w.content.memory_jobs)
  modify (λ w. record w { content = record w.content { memory_jobs = claimed.table } })
  pure claimed.taken

-- `SET status = 'done', last_error = '', updated_at = NOW()`
abbrev pub finish_job : ℕ → JobRow → JobRow
finish_job now r = record r {
  job = record r.job { status = done; last_error = []; updated_at = now };
}

unfoldable pub complete_memory_extraction_job : Text → Query (Unit {0})
unfolding update_rows
complete_memory_extraction_job id = do
  statement
  modify (λ w. record w {
    content = record w.content {
      memory_jobs = update_rows (is_job id) (finish_job w.now) w.content.memory_jobs;
    };
  })

-- `INTERVAL '30 seconds'`, in nanoseconds.
abbrev pub half_minute : ℕ
half_minute = 30000000000

-- `SET attempts = attempts + 1, status = CASE … END, …`
abbrev pub fail_job : ℕ → Text → JobRow → JobRow
fail_job now error r = record r {
  job = record r.job {
    attempts = r.job.attempts + 1;
    status = if leb r.max_attempts (r.job.attempts + 1) then failed else retry;
    last_error = error;
    run_after = now + (r.job.attempts + 1) * half_minute;
    updated_at = now;
  };
  locked_at = none;
}

-- An error text of more than 1000 bytes is cut; a cut inside a character makes bytes that the
-- database refuses.
abbrev pub error_text : Text → Option Text
error_text text =
    if ltb 1000 (byte_length (trim_space text))
    then first_bytes 1000 (trim_space text)
    else some (trim_space text)

-- A text that the database takes as a parameter.
abbrev pub encoded : Option Text → Query Text
encoded none = raise db_fault
encoded (some t) = pure t

unfoldable pub fail_memory_extraction_job : Text → Text → Query (Unit {0})
unfolding update_rows byte_length first_bytes
fail_memory_extraction_job id text = do
  statement
  error ← encoded (error_text text)
  modify (λ w. record w {
    content = record w.content {
      memory_jobs = update_rows (is_job id) (fail_job w.now error) w.content.memory_jobs;
    };
  })
