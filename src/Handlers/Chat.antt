-- ===== src/Handlers/Chat.antt =====
-- The answer to a chat message in internal/handlers/server.go: what it does to the store. The
-- language model, with the prompt that is put together for it, and the files of messages and
-- images are parameters.
use be_miawai.Base.{ℕ, ◌+◌, Option, none, some, Bool, Text, if◌then◌else◌, List}
use be_miawai.Base.Strings.{trim_space}
use be_miawai.Models.{User, RuntimeSettings, Conversation, TrackerEntryInput}
use be_miawai.Database.World.{World, M, Query, Result, Error, ok, err, pure, raise, ◌>>=◌, ◌>>◌}
use be_miawai.Database.Usage.{increment_daily_usage}
use be_miawai.Database.Conversations.{update_conversation_stats, get_conversation_by_id}
use be_miawai.Handlers.Limits.{is_status_command}
use be_miawai.Handlers.Extraction.{Extractor}
use be_miawai.Handlers.Background.{Origin, extract_memories, extract_trackers}

-- `chatReplyInput`, with the number of its messages and images.
pub record ChatReplyInput : Type 0 where
  pub user : User
  pub conversation : Conversation
  pub settings : RuntimeSettings
  pub message_count : ℕ
  pub message : Text
  pub image_count : ℕ
  pub web_allowed : Bool

-- What the model answers: the text, the tokens that it took, and whether it was given a report of
-- web research.
pub record ChatAnswer : Type 0 where
  pub content : Text
  pub prompt_tokens : ℕ
  pub completion_tokens : ℕ
  pub researched : Bool

-- What is outside of the store: the model's answer to a prompt made of the input and the store, the
-- text of a status reply, how many messages a conversation's file holds, whether a file is
-- written, and what the work behind an answer uses: the worker's model and lock, the model's answer
-- on tracker entries with its JSON, the id that the message has in its file, and its images' URLs.
pub record ChatService : Type 0 where
  pub answer : ChatReplyInput → World → Option ChatAnswer
  pub status_reply : User → World → Text
  pub history : Text → World → Option ℕ
  pub images_saved : ℕ → World → Bool
  pub messages_saved : Text → ℕ → World → Bool
  pub extractor : Extractor
  pub worker_busy : World → Bool
  pub tracker_answer : ChatReplyInput → World → Option Text
  pub decode_trackers : Text → Option (List TrackerEntryInput)
  pub message_id : ChatReplyInput → Text
  pub image_urls : ChatReplyInput → Text

-- The stages at which an answer fails.
pub data ChatError : Type 0 where
  settings_failed settings_incomplete quota_exceeded : ChatError
  conversation_failed history_failed images_failed messages_failed stats_failed : ChatError
  model_failed assistant_failed refresh_failed : ChatError

module _ {A : Type 0} where
  abbrev pub staged_as : ChatError → Result Error A × World → Result ChatError A × World
  staged_as e (ok a, w) = (ok a, w)
  staged_as e (err x, w) = (err e, w)

  -- A call of the store, and the stage at which its errors fail the answer.
  abbrev pub staged : ChatError → Query A → M ChatError A
  staged e m w = staged_as e (m w)

  abbrev pub provided : ChatError → Option A → M ChatError A
  provided e none = raise e
  provided e (some a) = pure a

  abbrev pub unchecked : Query A → M ChatError (Unit {0})
  unchecked m w = (ok tt, (m w).1)

-- A test of the world, or else an error.
abbrev pub ensured : ChatError → (World → Bool) → M ChatError (Unit {0})
ensured e test w = (if test w then ok tt else err e, w)

abbrev pub asked : {A : Type 0} → ChatError → (World → Option A) → M ChatError A
asked e f w = provided e (f w) w

-- A goroutine.
abbrev pub behind : (World → World) → M ChatError (Unit {0})
behind f w = (ok tt, f w)

module _ (service : ChatService) where
  abbrev pub origin_of : ChatReplyInput → Origin
  origin_of input = record {
    conversation_id = input.conversation.id;
    message_id = service.message_id input;
    image_urls = service.image_urls input;
  }

  -- The answer's message is kept, and the conversation's row told of it.
  abbrev pub keep_answer : ChatReplyInput → Text → M ChatError (Unit {0})
  keep_answer input text = do
    ensured assistant_failed
        (service.messages_saved input.conversation.id (input.message_count + 1))
    staged stats_failed (
        update_conversation_stats input.user.id input.conversation.id text
          (input.message_count + 1))

  abbrev pub refreshed : ChatReplyInput → Text → M ChatError (Text × Conversation)
  refreshed input text = do
    conversation ←
        staged refresh_failed (get_conversation_by_id input.user.id input.conversation.id)
    pure (text, conversation)

  -- `processChatReply`, less the callbacks of a stream.
  unfoldable pub process_chat_reply : ChatReplyInput → M ChatError (Text × Conversation)
  unfolding is_status_command extract_memories extract_trackers
  process_chat_reply input w =
      if is_status_command (trim_space input.message)
      then (do
        keep_answer input (service.status_reply input.user w)
        refreshed input (service.status_reply input.user w))
          w
      else (do
        answer ← asked model_failed (service.answer input)
        unchecked (
            increment_daily_usage input.user.id answer.prompt_tokens answer.completion_tokens
              input.image_count (if answer.researched then 1 else 0))
        keep_answer input (trim_space answer.content)
        behind (
            extract_memories service.extractor service.worker_busy input.user.id
              input.conversation.id input.settings input.message (trim_space answer.content))
        behind (
            extract_trackers service.extractor.digest service.decode_trackers
              (service.tracker_answer input) input.user.id (origin_of input) input.message
              input.image_count)
        refreshed input (trim_space answer.content))
          w
