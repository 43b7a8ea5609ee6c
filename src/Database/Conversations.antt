-- ===== src/Database/Conversations.antt =====
-- The conversations of internal/database/runtime_store.go, and those of a channel in
-- internal/database/whatsapp_store.go.
pub mod Channel
pub mod Thread
use be_miawai.Base.{
  ℕ, List, [], ◌∷◌, ◌++◌, Option, none, some, Bool, true, false, not, ◌&&◌, ◌||◌, Text, codes,
  text_eq, is_blank, map, leb, if◌then◌else◌,
}
use be_miawai.Base.Strings.{trim_space}
use be_miawai.Base.Bytes.{byte_length, first_bytes}
use be_miawai.Base.Fields.{squeezed}
use be_miawai.Base.Ints.{ℤ, limit_or}
use be_miawai.Models.{Conversation, WhatsAppContact}
use be_miawai.Database.World.{
  World, Query, ConversationRow, MemoryRow, constraint, no_rows, channel_required, ok, err, pure,
  raise, raise_if, gets, modify, ◌>>=◌, ◌>>◌, statement, new_id,
}
use be_miawai.Database.Rows.{
  any_row, first_row, rows_where, update_rows, touch_rows, delete_rows, take,
}
use be_miawai.Database.Users.{or_no_rows, coalesce}
use be_miawai.Database.Memories.{shortened}
use be_miawai.Database.Jobs.{encoded}

-- `fallbackTitle`
abbrev pub fallback_title : Text → Text
fallback_title title = if is_blank (trim_space title) then codes "New chat" else title

-- `buildPreview`; `none` where the cut falls inside a character.
unfoldable pub build_preview : Text → Option Text
unfolding squeezed byte_length first_bytes
build_preview content = shortened 160 157 (squeezed (trim_space content))

abbrev pub whatsapp : Text
whatsapp = codes "whatsapp"

-- The rows of a query, without the columns that it does not select.
abbrev pub scan_conversations : List ConversationRow → List Conversation
scan_conversations = map (λ r. r.conversation)

-- `WHERE user_id = $1 AND is_cloud_synced = true`
abbrev pub is_synced : Text → ConversationRow → Bool
is_synced user_id r = text_eq r.user_id user_id && r.conversation.is_cloud_synced

-- `ORDER BY pinned DESC, updated_at DESC`
abbrev pub pinned_first : List ConversationRow → List ConversationRow
pinned_first rs =
    rows_where (λ r. r.conversation.pinned) rs ++ delete_rows (λ r. r.conversation.pinned) rs

unfoldable pub list_conversations_by_user : Text → Query (List Conversation)
unfolding rows_where delete_rows
list_conversations_by_user user_id = do
  statement
  gets (λ w.
      scan_conversations (pinned_first (rows_where (is_synced user_id) w.content.conversations)))

unfoldable pub list_whatsapp_conversations : ℤ → Query (List Conversation)
unfolding rows_where take limit_or
list_whatsapp_conversations limit = do
  statement
  gets (λ w. scan_conversations (
      take (limit_or 200 100 limit) (
        rows_where (λ r. text_eq r.conversation.channel whatsapp && r.conversation.is_cloud_synced)
          w.content.conversations)))

unfoldable pub get_whatsapp_conversation_by_id : Text → Query Conversation
unfolding first_row
get_whatsapp_conversation_by_id id = do
  statement
  row ←
      or_no_rows
        (← gets (λ w.
          first_row (λ r. text_eq r.conversation.id id && text_eq r.conversation.channel whatsapp)
            w.content.conversations))
  pure row.conversation

-- The row of a new conversation.
abbrev pub new_conversation : Text → Text → Text → Text → ℕ → Conversation
new_conversation id title provider model now = record {
  id = id;
  title = fallback_title title;
  pinned = false;
  is_cloud_synced = true;
  channel = codes "web";
  channel_thread_id = [];
  channel_display_name = [];
  provider = trim_space provider;
  model = trim_space model;
  last_message_preview = [];
  message_count = 0;
  updated_at = now;
}

-- The answer is built before the insertion, which sets two columns more.
unfoldable pub create_conversation : Text → Text → Text → Text → Query Conversation
unfolding any_row
create_conversation user_id title provider model = do
  now ← gets (λ w. w.now)
  id ← new_id (codes "con")
  statement
  clash ← gets (λ w. any_row (λ r. text_eq r.conversation.id id) w.content.conversations)
  raise_if clash constraint
  let stored = new_conversation id title provider model now
  modify (λ w. record w {
    content = record w.content {
      conversations = record { conversation = stored; user_id = user_id } ∷ w.content.conversations;
    };
  })
  pure (record stored { is_cloud_synced = false; channel = [] })

-- `WHERE id = $1 AND user_id = $2`
abbrev pub is_conversation : Text → Text → ConversationRow → Bool
is_conversation user_id id r = text_eq r.conversation.id id && text_eq r.user_id user_id

unfoldable pub get_conversation_by_id : Text → Text → Query Conversation
unfolding first_row
get_conversation_by_id user_id id = do
  statement
  row ← or_no_rows (← gets (λ w. first_row (is_conversation user_id id) w.content.conversations))
  pure row.conversation

-- What a pointer gives, or else the current value.
abbrev pub given_or {ℓ} : {A : Type ℓ} → Option A → A → A
given_or none a = a
given_or (some b) a = b

abbrev pub next_title : Option Text → Text → Text
next_title none title = title
next_title (some t) title = fallback_title (trim_space t)

unfoldable pub update_conversation_meta :
    Text → Text → Option Text → Option Bool → Option Bool → Query Conversation
unfolding get_conversation_by_id touch_rows
update_conversation_meta user_id id title pinned synced = do
  current ← get_conversation_by_id user_id id
  statement
  modify (λ w. record w {
    content = record w.content {
      conversations =
          touch_rows (is_conversation user_id id)
            (λ r. record r {
              conversation = record r.conversation {
                title = next_title title current.title;
                pinned = given_or pinned current.pinned;
                is_cloud_synced = given_or synced current.is_cloud_synced;
                updated_at = w.now;
              };
            })
            w.content.conversations;
    };
  })
  get_conversation_by_id user_id id

-- `ON DELETE SET NULL`
abbrev pub forget_source : Text → MemoryRow → MemoryRow
forget_source id r =
    if text_eq r.memory.source_conversation_id id
    then record r { memory = record r.memory { source_conversation_id = [] } }
    else r

abbrev pub forget_default : Text → WhatsAppContact → WhatsAppContact
forget_default id c =
    if text_eq c.default_conversation_id id then record c { default_conversation_id = [] } else c

-- The deletion of a conversation takes its extraction jobs with it, and clears the references to it.
unfoldable pub delete_conversation : Text → Text → Query (Unit {0})
unfolding any_row delete_rows
delete_conversation user_id id = do
  statement
  found ← gets (λ w. any_row (is_conversation user_id id) w.content.conversations)
  raise_if (not found) no_rows
  modify (λ w. record w {
    content = record w.content {
      conversations = delete_rows (is_conversation user_id id) w.content.conversations;
      memory_jobs = delete_rows (λ r. text_eq r.job.conversation_id id) w.content.memory_jobs;
      memories = map (forget_source id) w.content.memories;
    };
    wa_contacts = map (forget_default id) w.wa_contacts;
  })

unfoldable pub update_conversation_stats : Text → Text → Text → ℕ → Query (Unit {0})
unfolding get_conversation_by_id touch_rows build_preview
update_conversation_stats user_id id preview message_count = do
  current ← get_conversation_by_id user_id id
  statement
  shown ← encoded (build_preview preview)
  modify (λ w. record w {
    content = record w.content {
      conversations =
          touch_rows (is_conversation user_id id)
            (λ r. record r {
              conversation = record r.conversation {
                last_message_preview = shown;
                message_count = message_count;
                is_cloud_synced = true;
                updated_at = w.now;
              };
            })
            w.content.conversations;
    };
  })

-- The rows that the unique index `(user_id, channel, channel_thread_id)` holds apart.
abbrev pub is_thread : Text → Text → Text → ConversationRow → Bool
is_thread user_id channel thread_id r =
    text_eq r.user_id user_id
    && (text_eq r.conversation.channel channel
        && text_eq r.conversation.channel_thread_id thread_id)

-- `DO UPDATE SET …`, which leaves `updated_at`.
abbrev pub refresh_thread : Text → Text → Text → ConversationRow → ConversationRow
refresh_thread display_name provider model r = record r {
  conversation = record r.conversation {
    channel_display_name = coalesce display_name r.conversation.channel_display_name;
    provider = coalesce provider r.conversation.provider;
    model = coalesce model r.conversation.model;
  };
}

unfoldable pub upsert_thread : Text → Conversation → List ConversationRow → List ConversationRow
unfolding any_row update_rows
upsert_thread user_id c rs =
    if any_row (is_thread user_id c.channel c.channel_thread_id) rs
    then update_rows (is_thread user_id c.channel c.channel_thread_id)
        (refresh_thread c.channel_display_name c.provider c.model) rs
    else record { conversation = c; user_id = user_id } ∷ rs

unfoldable pub get_or_create_channel_conversation :
    Text → Text → Text → Text → Text → Text → Text → Query Conversation
unfolding upsert_thread first_row any_row
get_or_create_channel_conversation user_id raw_channel raw_thread display_name title provider
      model =
    let channel = trim_space raw_channel in
    let thread_id = trim_space raw_thread in
    raise_if (is_blank channel || is_blank thread_id) channel_required >> do
      now ← gets (λ w. w.now)
      id ← new_id (codes "con")
      statement
      clash ← gets (λ w. any_row (λ r. text_eq r.conversation.id id) w.content.conversations)
      raise_if clash constraint
      modify (λ w. record w {
        content = record w.content {
          conversations =
              upsert_thread user_id
                (record (new_conversation id title provider model now) {
                  channel = channel;
                  channel_thread_id = thread_id;
                  channel_display_name = trim_space display_name;
                })
                w.content.conversations;
        };
      })
      statement
      row ←
          or_no_rows
            (← gets (λ w. first_row (is_thread user_id channel thread_id) w.content.conversations))
      pure row.conversation

unfoldable pub set_whatsapp_contact_conversation : Text → Text → Query (Unit {0})
unfolding update_rows
set_whatsapp_contact_conversation contact_id conversation_id = do
  statement
  modify (λ w. record w {
    wa_contacts =
        update_rows (λ c. text_eq c.id contact_id)
          (λ c. record c { default_conversation_id = conversation_id }) w.wa_contacts;
  })
