-- ===== src/Handlers/Extraction/Outcomes.antt =====
-- What processing one job of internal/handlers/server.go does to the table of jobs.
use be_miawai.Base.{
  ℕ, ◌≡◌, refl, List, [], ◌∷◌, inl, inr, Text, codes, arith, Bool-cases, Option-cases, ◌∙◌, subst,
}
use be_miawai.Models.{MemoryExtractionJob, MemoryInput, RuntimeSettings, UserMemory}
use be_miawai.Database.World.{World, Result, Error, JobRow, ok, err, failing, resume}
use be_miawai.Database.Rows.{update_rows}
use be_miawai.Database.Jobs.{
  is_job, finish_job, fail_job, complete_memory_extraction_job, fail_memory_extraction_job,
  error_text,
}
use be_miawai.Database.Memories.{upsert_memory, clean_input, title_of}
use be_miawai.Database.Runtime.{get_runtime_settings}
use be_miawai.Handlers.Settings.{load_runtime_settings}
use be_miawai.Handlers.Extraction.{
  Extractor, save_memories, after_saving, after_chat, with_settings, prepared, settings_or,
  from_chat, passing, process_memory_extraction_job, is_incomplete, ignoring,
  parse_memory_extraction,
}

-- The job stays as it is, where the statement fails that would settle it; or it is finished; or it
-- is failed.
pub data Outcome (id : Text) (rs : List JobRow) : List JobRow → Type 0 where
  unsettled : Outcome id rs rs
  settled : (now : ℕ) → Outcome id rs (update_rows (is_job id) (finish_job now) rs)
  given_up :
      (now : ℕ) (error : Text) → Outcome id rs (update_rows (is_job id) (fail_job now error) rs)

complete-Outcome :
    (id : Text) (w : World)
    → Outcome id w.content.memory_jobs
        (ignoring (complete_memory_extraction_job id) w).content.memory_jobs
unfolding complete_memory_extraction_job
complete-Outcome id w = elim (Bool-cases (failing w.faults)) [
  | inl t ↦ rw (ignoring, t) unsettled
  | inr t ↦ rw (ignoring, t) (settled w.now)
]

fail-Outcome :
    (id text : Text) (w : World)
    → Outcome id w.content.memory_jobs
        (ignoring (fail_memory_extraction_job id text) w).content.memory_jobs
unfolding fail_memory_extraction_job
fail-Outcome id text w = elim (Bool-cases (failing w.faults)) [
  | inl t ↦ rw (ignoring, t) unsettled
  | inr t ↦ elim (Option-cases (error_text text)) [
    | inl n ↦ rw (ignoring, t, n) unsettled
    | inr (error, n) ↦ rw (ignoring, t, n) (given_up w.now error)
  ]
]

upsert_memory_jobs :
    (digest : Text → Text) (user_id : Text) (input : MemoryInput) (w : World)
    → (upsert_memory digest user_id input w).1.content.memory_jobs ≡ w.content.memory_jobs
unfolding upsert_memory
upsert_memory_jobs digest user_id input w = elim (Option-cases (title_of (clean_input input))) [
  | inl n ↦ ground (arith, n)
  | inr (title, n) ↦ ground (arith, n)
]

load_runtime_settings_jobs :
    (x : Extractor) (fallback : RuntimeSettings) (user_id : Text) (w : World)
    → (settings_or fallback (load_runtime_settings x.config user_id w)).1.content.memory_jobs
      ≡ w.content.memory_jobs
unfolding load_runtime_settings get_runtime_settings
load_runtime_settings_jobs x fallback user_id w = ground arith

module _ (x : Extractor) (job : MemoryExtractionJob) where
  -- The rest of the loop, after one memory.
  save_rest_jobs :
      (inputs : List MemoryInput) (r : Result Error UserMemory × World)
      → ((w : World) → (save_memories x job inputs w).1.content.memory_jobs ≡ w.content.memory_jobs)
      → (resume (λ saved. save_memories x job inputs) r).1.content.memory_jobs
        ≡ r.1.content.memory_jobs
  save_rest_jobs inputs (ok m, w) k = k w
  save_rest_jobs inputs (err e, w) k = refl

  save_memories_jobs :
      (inputs : List MemoryInput) (w : World)
      → (save_memories x job inputs w).1.content.memory_jobs ≡ w.content.memory_jobs
  unfolding save_memories
  save_memories_jobs [] w = refl
  save_memories_jobs (input ∷ inputs) w =
      save_rest_jobs inputs (upsert_memory x.digest job.user_id (from_chat job input) w)
        (save_memories_jobs inputs)
      ∙ upsert_memory_jobs x.digest job.user_id (from_chat job input) w

  after_saving-Outcome :
      (r : Result Error (Unit {0}) × World)
      → Outcome job.id r.1.content.memory_jobs (after_saving x job.id r).content.memory_jobs
  after_saving-Outcome (ok u, w) = complete-Outcome job.id w
  after_saving-Outcome (err e, w) = fail-Outcome job.id (x.describe e) w

  after_chat-Outcome :
      (r : Result Text Text) (w : World)
      → Outcome job.id w.content.memory_jobs (after_chat x job r w).content.memory_jobs
  after_chat-Outcome (err text) w = fail-Outcome job.id text w
  after_chat-Outcome (ok response) w =
      let inputs : List MemoryInput = parse_memory_extraction x.decode response in
      subst (λ rs. Outcome job.id rs (after_chat x job (ok response) w).content.memory_jobs)
        (save_memories_jobs inputs w) (after_saving-Outcome (save_memories x job inputs w))

  with_settings-Outcome :
      (s : RuntimeSettings) (w : World)
      → Outcome job.id w.content.memory_jobs (with_settings x job (s, w)).content.memory_jobs
  with_settings-Outcome s w = elim (Bool-cases (is_incomplete s)) [
    | inl t ↦ rw t (fail-Outcome job.id (codes "runtime settings are incomplete") w)
    | inr t ↦ rw t (after_chat-Outcome (x.chat s job) (passing x (x.elapsed job) w))
  ]

  -- Processing a job settles it in one of the three ways, and concerns no other job.
  pub process_memory_extraction_job-Outcome :
      (fallback : RuntimeSettings) (w : World)
      → Outcome job.id w.content.memory_jobs
          (process_memory_extraction_job x fallback job w).content.memory_jobs
  unfolding process_memory_extraction_job
  process_memory_extraction_job-Outcome fallback w =
      let (s, v) =
        prepared x (settings_or fallback (load_runtime_settings x.config job.user_id w)) in
      subst (λ rs. Outcome job.id rs (with_settings x job (s, v)).content.memory_jobs)
        (load_runtime_settings_jobs x fallback job.user_id w) (with_settings-Outcome s v)
