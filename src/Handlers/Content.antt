-- ===== src/Handlers/Content.antt =====
-- The requests on conversations, memories and trackers in internal/handlers/server.go.
pub mod Entries
pub mod Stored
pub mod Valid
use be_miawai.Base.{
  [], ◌∷◌, ◌||◌, none, Option, String, List, Text, Bool, codes, not, one_of, is_blank, ltb,
}
use be_miawai.Database.World.{◌>>=◌, ◌>>◌, World, Error, pure}
use be_miawai.Models.{
  User, Conversation, TrackerEntryInput, MemoryInput, UserMemory, TrackerEntry, TrackerSuggestion,
}
use be_miawai.Base.Bytes.{byte_length}
use be_miawai.Handlers.Reply.{Handler, deny_if, Reply, from_store, missing_or, reply, required}
use be_miawai.Database.Trackers.{
  delete_tracker_entry, list_tracker_entries, update_tracker_entry, create_tracker_entry, filled,
}
use be_miawai.Database.Trackers.Suggestions.{
  dismiss_tracker_suggestion, approve_tracker_suggestion, list_tracker_suggestions,
}
use be_miawai.Handlers.Access.{has_access}
use be_miawai.Database.Conversations.{
  list_conversations_by_user, get_conversation_by_id, update_conversation_meta, delete_conversation,
}
use be_miawai.Database.Memories.{list_memories_by_user, delete_memory, upsert_memory, update_memory}
use be_miawai.Base.Strings.{folded, trim_space}
use be_miawai.Base.Ints.{pos}

unfoldable pub list_conversations : User → Handler (List Conversation)
list_conversations user = do
  deny_if (not (has_access user (codes "conversations:read"))) 403
      "conversation history is not allowed for this role"
  from_store (λ e. reply 500 "failed to load conversations") (list_conversations_by_user user.id)

-- The conversation, and what its file holds.
unfoldable pub get_conversation :
    {A : Type 0} → (Conversation → World → Option A) → User → Text → Handler (Conversation × A)
get_conversation load user id = do
  deny_if
      (not (has_access user (codes "conversations:read"))
        || not (has_access user (codes "chat:read")))
      403 "conversation history is not allowed for this role"
  conversation ←
      from_store
        (missing_or (reply 404 "conversation not found")
          (reply 500 "failed to load conversation metadata"))
        (get_conversation_by_id user.id id)
  messages ← λ w. required (load conversation w) 500 "failed to load conversation history" w
  pure (conversation, messages)

-- The body of `updateConversation`: what it is to change.
pub record ConversationBody : Type 0 where
  pub title : Option Text
  pub pinned : Option Bool

unfoldable pub update_conversation : User → Text → Option ConversationBody → Handler Conversation
update_conversation user id decoded = do
  deny_if (not (has_access user (codes "conversations:write"))) 403
      "conversation updates are not allowed for this role"
  body ← required decoded 400 "invalid json body"
  from_store
      (missing_or (reply 404 "conversation not found") (reply 500 "failed to update conversation"))
      (update_conversation_meta user.id id body.title body.pinned none)

unfoldable pub remove_conversation : User → Text → Handler (Unit {0})
remove_conversation user id = do
  deny_if (not (has_access user (codes "conversations:delete"))) 403
      "conversation deletion is not allowed for this role"
  from_store
      (missing_or (reply 404 "conversation not found")
        (reply 500 "failed to delete conversation metadata"))
      (delete_conversation user.id id)

unfoldable pub list_memories : User → Handler (List UserMemory)
list_memories user = do
  deny_if (not (has_access user (codes "chat:read"))) 403
      "memory access is not allowed for this role"
  from_store (λ e. reply 500 "failed to load memories") (list_memories_by_user user.id (pos 100))

abbrev pub no_tracker : String → Error → Reply
no_tracker failed = missing_or (reply 404 "tracker entry not found") (reply 500 failed)

abbrev pub no_suggestion : String → Error → Reply
no_suggestion failed = missing_or (reply 404 "tracker suggestion not found") (reply 500 failed)

abbrev pub tracker_modules : List Text
tracker_modules =
    codes "finance" ∷ codes "assets" ∷ codes "pangan" ∷ codes "health" ∷ codes "persona" ∷ []

-- `validateTrackerInput`
unfoldable pub validate_tracker_input : TrackerEntryInput → Handler (Unit {0})
unfolding byte_length
validate_tracker_input input = do
  deny_if (not (one_of (folded input.topic) tracker_modules)) 400
      "module must be one of finance, assets, pangan, health, or persona"
  deny_if (is_blank (trim_space input.title)) 400 "title is required"
  deny_if (ltb 160 (byte_length (trim_space input.title))) 400 "title is too long"
  deny_if (ltb 2000 (byte_length (trim_space input.detail))) 400 "detail is too long"

unfoldable pub list_entries : User → Text → Handler (List TrackerEntry)
list_entries user topic =
    from_store (λ e. reply 500 "failed to load tracker entries")
      (list_tracker_entries user.id topic)

unfoldable pub update_entry : User → Text → Option TrackerEntryInput → Handler TrackerEntry
unfolding validate_tracker_input
update_entry user id decoded = do
  input ← required decoded 400 "invalid json body"
  validate_tracker_input input
  from_store (no_tracker "failed to update tracker entry") (update_tracker_entry user.id id input)

unfoldable pub delete_entry : User → Text → Handler (Unit {0})
delete_entry user id =
    from_store (no_tracker "failed to delete tracker entry") (delete_tracker_entry user.id id)

unfoldable pub list_suggestions : User → Handler (List TrackerSuggestion)
list_suggestions user =
    from_store (λ e. reply 500 "failed to load tracker suggestions")
      (list_tracker_suggestions user.id)

unfoldable pub dismiss_suggestion : User → Text → Handler (Unit {0})
dismiss_suggestion user id =
    from_store (no_suggestion "failed to dismiss tracker suggestion")
      (dismiss_tracker_suggestion user.id id)

unfoldable pub remove_memory : User → Text → Handler (Unit {0})
remove_memory user raw_id = do
  deny_if (not (has_access user (codes "chat:write"))) 403
      "memory deletion is not allowed for this role"
  deny_if (is_blank (trim_space raw_id)) 400 "memory id is required"
  from_store (missing_or (reply 404 "memory not found") (reply 500 "failed to delete memory"))
      (delete_memory user.id (trim_space raw_id))

module _ (digest : Text → Text) where
  unfoldable pub create_memory : User → Option MemoryInput → Handler UserMemory
  create_memory user decoded = do
    deny_if (not (has_access user (codes "chat:write"))) 403
        "memory creation is not allowed for this role"
    input ← required decoded 400 "invalid json body"
    deny_if (is_blank (trim_space input.content)) 400 "memory content is required"
    from_store (λ e. reply 500 "failed to save memory") (upsert_memory digest user.id input)

  unfoldable pub change_memory : User → Text → Option MemoryInput → Handler UserMemory
  change_memory user raw_id decoded = do
    deny_if (not (has_access user (codes "chat:write"))) 403
        "memory update is not allowed for this role"
    deny_if (is_blank (trim_space raw_id)) 400 "memory id is required"
    input ← required decoded 400 "invalid json body"
    deny_if (is_blank (trim_space input.content)) 400 "memory content is required"
    from_store (missing_or (reply 404 "memory not found") (reply 500 "failed to update memory"))
        (update_memory digest user.id (trim_space raw_id) input)

  unfoldable pub create_entry : User → Option TrackerEntryInput → Handler TrackerEntry
  unfolding validate_tracker_input
  create_entry user decoded = do
    input ← required decoded 400 "invalid json body"
    validate_tracker_input input
    from_store (λ e. reply 500 "failed to create tracker entry")
        (create_tracker_entry digest user.id input)

  unfoldable pub approve_suggestion : User → Text → Handler TrackerEntry
  approve_suggestion user id =
      from_store (no_suggestion "failed to approve tracker suggestion")
        (approve_tracker_suggestion digest user.id id)
