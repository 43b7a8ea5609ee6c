-- ===== src/Handlers/Extraction.antt =====
-- The worker of internal/handlers/server.go that takes memories from chat turns. The language
-- model, its answer's JSON and the digest are parameters.
pub mod Outcomes
pub mod Drain
use be_miawai.Base.{
  ℕ, zero, suc, ◌+◌, List, [], ◌∷◌, ◌++◌, Option, none, some, Bool, true, false, not, ◌&&◌, ◌||◌,
  Text, codes, one_of, is_blank, ltb, if◌then◌else◌,
}
use be_miawai.Base.Strings.{trim_space, to_lower, trim_prefix, trim_suffix}
use be_miawai.Base.Bytes.{byte_length}
use be_miawai.Base.Fields.{squeezed}
use be_miawai.Base.Ints.{pos}
use be_miawai.Models.{MemoryExtractionJob, MemoryInput, RuntimeSettings}
use be_miawai.Database.World.{
  World, Result, Error, Query, JobRow, ok, err, pure, modify, ◌>>=◌, ◌>>◌,
}
use be_miawai.Database.Rows.{take}
use be_miawai.Database.Jobs.{
  enqueue_memory_extraction_job, claim_due_memory_extraction_jobs, complete_memory_extraction_job,
  fail_memory_extraction_job,
}
use be_miawai.Database.Memories.{upsert_memory}
use be_miawai.Handlers.Settings.{ProviderConfig, load_runtime_settings, apply_runtime_defaults}

-- `shouldSkipMemoryExtraction`
unfoldable pub should_skip_memory_extraction : Text → Text → Bool
unfolding squeezed byte_length
should_skip_memory_extraction user_message assistant_message =
    let compact = to_lower (squeezed user_message) in
    (ltb (byte_length compact) 24
      && one_of compact (
          codes "ok"
          ∷ codes "oke"
          ∷ codes "ya"
          ∷ codes "yes"
          ∷ codes "thanks"
          ∷ codes "thank you"
          ∷ codes "makasih"
          ∷ codes "terima kasih"
          ∷ codes "lanjut"
          ∷ []))
    || ltb (byte_length user_message + byte_length assistant_message) 80

-- What the worker uses that is not the store.
pub record Extractor : Type 0 where
  pub digest : Text → Text
  pub chat : RuntimeSettings → MemoryExtractionJob → Result Text Text
  pub elapsed : MemoryExtractionJob → ℕ
  pub decode : Text → Option (List MemoryInput)
  pub describe : Error → Text
  pub config : ProviderConfig

-- The text between the marks of a code block.
abbrev pub unfenced : Text → Text
unfenced raw = trim_space (
    trim_suffix (trim_prefix (trim_prefix (trim_space raw) (codes "```json")) (codes "```"))
      (codes "```"))

unfoldable pub with_content : List MemoryInput → List MemoryInput
with_content [] = []
with_content (item ∷ items) =
    let rest = with_content items in
    if is_blank (trim_space item.content)
    then rest
    else record item {
      content = trim_space item.content;
      source_conversation_id = [];
      metadata = [];
    }
      ∷ rest

-- `parseMemoryExtraction`
unfoldable pub parse_memory_extraction :
    (Text → Option (List MemoryInput)) → Text → List MemoryInput
unfolding with_content take
parse_memory_extraction decode raw = elim (decode (unfenced raw)) [
  | none ↦ []
  | some items ↦ take 5 (with_content items)
]

-- A JSON string with nothing to escape.
abbrev pub quoted : Text → Text
quoted text = b'"' ∷ (text ++ (b'"' ∷ []))

abbrev pub from_chat : MemoryExtractionJob → MemoryInput → MemoryInput
from_chat job input = record input {
  source_conversation_id = job.conversation_id;
  metadata =
      (codes "source", quoted (codes "chat_extraction"))
      ∷ (codes "jobId", quoted job.id)
      ∷ input.metadata;
}

-- `_ = s.store.…`
abbrev pub ignoring : Query (Unit {0}) → World → World
ignoring m w = (m w).1

abbrev pub settings_or :
    RuntimeSettings → Result Error RuntimeSettings × World → RuntimeSettings × World
settings_or fallback (ok s, w) = (s, w)
settings_or fallback (err e, w) = (fallback, w)

abbrev pub with_managed_key : ProviderConfig → RuntimeSettings → RuntimeSettings
with_managed_key cfg s =
    if is_blank (trim_space s.api_key) && not (is_blank cfg.managed_ai_api_key)
    then record s { api_key = cfg.managed_ai_api_key }
    else s

abbrev pub is_incomplete : RuntimeSettings → Bool
is_incomplete s =
    is_blank (trim_space s.base_url)
    || is_blank (trim_space s.models.active)
    || is_blank (trim_space s.api_key)

module _ (x : Extractor) where
  -- The loop that saves the memories, up to the first error.
  unfoldable pub save_memories : MemoryExtractionJob → List MemoryInput → Query (Unit {0})
  save_memories job [] = pure tt
  save_memories job (input ∷ inputs) = do
    saved ← upsert_memory x.digest job.user_id (from_chat job input)
    save_memories job inputs

  abbrev pub after_saving : Text → Result Error (Unit {0}) × World → World
  after_saving id (ok u, w) = ignoring (complete_memory_extraction_job id) w
  after_saving id (err e, w) = ignoring (fail_memory_extraction_job id (x.describe e)) w

  abbrev pub after_chat : MemoryExtractionJob → Result Text Text → World → World
  after_chat job (err text) w = ignoring (fail_memory_extraction_job job.id text) w
  after_chat job (ok response) w =
      after_saving job.id (save_memories job (parse_memory_extraction x.decode response) w)

  -- The instant after the model's answer.
  abbrev pub passing : ℕ → World → World
  passing t w = record w { now = w.now + t }

  abbrev pub with_settings : MemoryExtractionJob → RuntimeSettings × World → World
  with_settings job (s, w) =
      if is_incomplete s
      then ignoring (fail_memory_extraction_job job.id (codes "runtime settings are incomplete")) w
      else after_chat job (x.chat s job) (passing (x.elapsed job) w)

  abbrev pub prepared : RuntimeSettings × World → RuntimeSettings × World
  prepared (s, w) = (with_managed_key x.config (apply_runtime_defaults s), w)

  unfoldable pub process_memory_extraction_job :
      RuntimeSettings → MemoryExtractionJob → World → World
  unfolding load_runtime_settings apply_runtime_defaults
  process_memory_extraction_job fallback job w =
      with_settings job
        (prepared (settings_or fallback (load_runtime_settings x.config job.user_id w)))

  unfoldable pub process_jobs : RuntimeSettings → List JobRow → World → World
  process_jobs fallback [] w = w
  process_jobs fallback (r ∷ rs) w =
      process_jobs fallback rs (process_memory_extraction_job fallback r.job w)

  -- One turn of the loop: it ends on an error of the claim and where nothing is claimed. The flag
  -- tells that it ended.
  abbrev pub next_turn :
      RuntimeSettings → (World → Bool × World) → Result Error (List JobRow) × World → Bool × World
  next_turn fallback turns (err e, w) = (true, w)
  next_turn fallback turns (ok [], w) = (true, w)
  next_turn fallback turns (ok (r ∷ rs), w) = turns (process_jobs fallback (r ∷ rs) w)

  -- `processDueMemoryExtractionJobs`, for so many turns; the lock is held throughout.
  unfoldable pub process_due_memory_extraction_jobs : ℕ → RuntimeSettings → World → Bool × World
  unfolding process_jobs
  process_due_memory_extraction_jobs zero fallback w = (false, w)
  process_due_memory_extraction_jobs (suc n) fallback w =
      next_turn fallback (λ w'. process_due_memory_extraction_jobs n fallback w')
        (claim_due_memory_extraction_jobs (pos 3) w)

-- What `extractMemoriesAsync` does before it starts the worker.
unfoldable pub queue_extraction : Text → Text → Text → Text → Query (Option MemoryExtractionJob)
unfolding should_skip_memory_extraction
queue_extraction user_id conversation_id raw_message raw_reply =
    if should_skip_memory_extraction (trim_space raw_message) (trim_space raw_reply)
    then pure none
    else do
      job ←
          enqueue_memory_extraction_job user_id conversation_id (trim_space raw_message)
            (trim_space raw_reply)
      pure (some job)
