-- ===== src/Handlers/Background.antt =====
-- What an answer starts behind it in internal/handlers/server.go: it queues a job and starts the
-- worker of the memories, and takes tracker suggestions from the message. A goroutine runs where it
-- is started.
use be_miawai.Base.{
  [], ◌∷◌, none, some, suc, Text, ℕ, Bool, Option, List, true, if◌then◌else◌, ltb, false, is_blank,
  ◌==◌, ◌||◌, codes, one_of, not,
}
use be_miawai.Database.World.{ok, err, Result, World, Error}
use be_miawai.Handlers.Extraction.{
  Extractor, queue_extraction, process_due_memory_extraction_jobs, unfenced, quoted,
}
use be_miawai.Base.Fields.{squeezed}
use be_miawai.Handlers.Content.{validate_tracker_input}
use be_miawai.Database.Rows.{take}
use be_miawai.Database.Trackers.Suggestions.{create_tracker_suggestion}
use be_miawai.Base.Bytes.{byte_length}
use be_miawai.Models.{TrackerEntryInput, RuntimeSettings, MemoryExtractionJob}
use be_miawai.Base.Strings.{to_lower, trim_space}
use be_miawai.Handlers.Extraction.Drain.{weights}
use be_miawai.Database.Trackers.{merged}

module _ (x : Extractor) where
  abbrev pub started :
      (World → Bool) → RuntimeSettings → Result Error (Option MemoryExtractionJob) × World → World
  started busy settings (err e, w) = w
  started busy settings (ok none, w) = w
  started busy settings (ok (some job), w) =
      if busy w
      then w
      else (process_due_memory_extraction_jobs x (suc (weights w.content.memory_jobs)) settings w).1

  -- `extractMemoriesAsync`; the worker runs where its lock is free, for as many turns as its loop
  -- takes at most.
  unfoldable pub extract_memories :
      (World → Bool) → Text → Text → RuntimeSettings → Text → Text → World → World
  unfolding queue_extraction process_due_memory_extraction_jobs weights
  extract_memories busy user_id conversation_id settings user_message reply w =
      started busy settings (queue_extraction user_id conversation_id user_message reply w)

-- `shouldSkipTrackerExtraction`
unfoldable pub should_skip_tracker_extraction : Text → ℕ → Bool
unfolding squeezed byte_length
should_skip_tracker_extraction user_message image_count =
    let compact = to_lower (squeezed user_message) in
    if ltb 0 image_count
    then false
    else ltb (byte_length compact) 12
      || one_of compact (
          codes "ok"
          ∷ codes "oke"
          ∷ codes "ya"
          ∷ codes "yes"
          ∷ codes "thanks"
          ∷ codes "thank you"
          ∷ codes "makasih"
          ∷ codes "terima kasih"
          ∷ codes "lanjut"
          ∷ [])

abbrev pub succeeds : {E A : Type 0} → Result E A → Bool
succeeds (ok a) = true
succeeds (err e) = false

-- The entries that `validateTrackerInput` accepts, in any world.
unfoldable pub accepted_entries : World → List TrackerEntryInput → List TrackerEntryInput
unfolding validate_tracker_input
accepted_entries w [] = []
accepted_entries w (entry ∷ entries) =
    let rest = accepted_entries w entries in
    if is_blank (trim_space entry.title)
    then rest
    else if not (succeeds (validate_tracker_input entry w).0)
    then rest
    else entry ∷ rest

-- `parseTrackerExtraction`
unfoldable pub parse_tracker_extraction :
    (Text → Option (List TrackerEntryInput)) → Text → World → List TrackerEntryInput
unfolding accepted_entries take
parse_tracker_extraction decode raw w = elim (decode (unfenced raw)) [
  | none ↦ []
  | some entries ↦ take 12 (accepted_entries w entries)
]

-- Where an extracted entry comes from: the conversation and the message, and the images' URLs as
-- JSON.
pub record Origin : Type 0 where
  pub conversation_id : Text
  pub message_id : Text
  pub image_urls : Text

abbrev pub with_origin : Origin → ℕ → TrackerEntryInput → TrackerEntryInput
with_origin origin image_count input = record input {
  source = if image_count == 0 then codes "Miaw AI Chat" else codes "Image Upload";
  updated_from =
      if image_count == 0
      then codes "Miaw AI text extraction"
      else codes "Miaw AI image extraction";
  metadata = merged input.metadata (
      (
        codes "source",
        quoted (if image_count == 0 then codes "chat_extraction" else codes "image_extraction"),
      )
      ∷ (codes "conversationId", quoted origin.conversation_id)
      ∷ (codes "messageId", quoted origin.message_id)
      ∷ (codes "imageUrls", origin.image_urls)
      ∷ []);
}

-- The loop over the extracted entries; each error is ignored.
unfoldable pub save_suggestions :
    (Text → Text) → Text → Origin → ℕ → List TrackerEntryInput → World → World
unfolding create_tracker_suggestion
save_suggestions digest user_id origin image_count [] w = w
save_suggestions digest user_id origin image_count (input ∷ inputs) w =
    save_suggestions digest user_id origin image_count inputs
      (create_tracker_suggestion digest user_id (with_origin origin image_count input) w).1

abbrev pub after_tracker_chat :
    (Text → Text)
    → (Text → Option (List TrackerEntryInput))
    → Text
    → Origin
    → ℕ
    → Option Text
    → World
    → World
after_tracker_chat digest decode user_id origin image_count none w = w
after_tracker_chat digest decode user_id origin image_count (some response) w =
    save_suggestions digest user_id origin image_count (parse_tracker_extraction decode response w)
      w

-- `extractTrackersAsync`, with the model's answer in each world.
unfoldable pub extract_trackers :
    (Text → Text)
    → (Text → Option (List TrackerEntryInput))
    → (World → Option Text)
    → Text
    → Origin
    → Text
    → ℕ
    → World
    → World
unfolding should_skip_tracker_extraction parse_tracker_extraction save_suggestions
extract_trackers digest decode answer user_id origin user_message image_count w =
    if should_skip_tracker_extraction user_message image_count
    then w
    else after_tracker_chat digest decode user_id origin image_count (answer w) w
