-- ===== src/Database/Conversations/Channel.antt =====
-- One conversation for each thread of a channel (internal/database/whatsapp_store.go).
use be_miawai.Base.{
  ◌≡◌, ◌+◌, List, ◌∷◌, ◌++◌, some, Bool, false, inl, inr, Text, codes, text_eq, text_eq_refl,
  is_blank, arith, Bool-cases, ◌||◌, ap,
}
use be_miawai.Base.Strings.{trim_space}
use be_miawai.Models.{Conversation}
use be_miawai.Database.World.{World, ConversationRow, ok, Calm}
use be_miawai.Database.Rows.{any_row, first_row}
use be_miawai.Database.Rows.Apart.{first_row-update_rows, first_row-any, any_row-first}
use be_miawai.Database.Conversations.{
  is_thread, refresh_thread, upsert_thread, new_conversation, get_or_create_channel_conversation,
}

-- After an upsert the thread has a conversation; it keeps its id where there was one.
pub first_row-upsert_thread :
    (user_id : Text) (c : Conversation) (rs : List ConversationRow)
    → (r : ConversationRow) × (first_row
          (is_thread user_id c.channel c.channel_thread_id)
          (upsert_thread user_id c rs)
        ≡ some r)
      × ((s : ConversationRow)
          → first_row (is_thread user_id c.channel c.channel_thread_id) rs ≡ some s
          → r.conversation.id ≡ s.conversation.id)
unfolding upsert_thread first_row
first_row-upsert_thread user_id c rs =
    let test : ConversationRow → Bool = is_thread user_id c.channel c.channel_thread_id in
    let change : ConversationRow → ConversationRow =
      refresh_thread c.channel_display_name c.provider c.model in
    elim (Bool-cases (any_row test rs)) [
      | inl t ↦
          let (s, e, p) = any_row-first test rs t in
          (
            change s,
            rw t (first_row-update_rows test change rs s (λ r h. h) e),
            λ s' e'. ground (arith, e, e'),
          )
      | inr t ↦ (
        record { conversation = c; user_id = user_id },
        ground (
          arith,
          t,
          text_eq_refl user_id,
          text_eq_refl c.channel,
          text_eq_refl c.channel_thread_id,
        ),
        λ s e. ground (arith, t, first_row-any test rs s e),
      )
    ]

-- The id that the next insertion draws.
abbrev pub next_con : World → Text
next_con w = codes "con" ++ (b'_' ∷ w.random w.draws)

module _ (user_id channel thread_id : Text) where
  -- The row that a call inserts where there is none.
  abbrev pub thread_at : World → Text → Text → Text → Text → Conversation
  thread_at w name title provider model =
      record (new_conversation (next_con w) title provider model w.now) {
        channel = trim_space channel;
        channel_thread_id = trim_space thread_id;
        channel_display_name = trim_space name;
      }

  pub call_result :
      (name title provider model : Text) (w : World) (r : ConversationRow)
      → Calm w
      → is_blank (trim_space channel) || is_blank (trim_space thread_id) ≡ false
      → any_row (λ q. text_eq q.conversation.id (next_con w)) w.content.conversations ≡ false
      → first_row
          (is_thread user_id (trim_space channel) (trim_space thread_id))
          (upsert_thread user_id (thread_at w name title provider model) w.content.conversations)
        ≡ some r
      → get_or_create_channel_conversation user_id channel thread_id name title provider model w ≡ (
        ok r.conversation,
        record w {
          draws = w.draws + 1;
          content = record w.content {
            conversations =
                upsert_thread user_id
                  (thread_at w name title provider model)
                  w.content.conversations;
          };
        },
      )
  unfolding get_or_create_channel_conversation
  call_result name title provider model w r calm b d e = ground (arith, calm, b, d, e)

  pub call_guards :
      (name title provider model : Text) (w : World) {c : Conversation}
      → Calm w
      → (get_or_create_channel_conversation user_id channel thread_id name title provider model w).0
        ≡ ok c
      → (is_blank (trim_space channel) || is_blank (trim_space thread_id) ≡ false)
        × (any_row (λ q. text_eq q.conversation.id (next_con w)) w.content.conversations ≡ false)
  unfolding get_or_create_channel_conversation
  call_guards name title provider model w calm h = ground (arith, calm, h)

  abbrev pub of_thread : ConversationRow → Bool
  of_thread = is_thread user_id (trim_space channel) (trim_space thread_id)

  -- A call where the thread has a conversation.
  pub call_known :
      (name title provider model : Text) (v : World) (r : ConversationRow)
      → Calm v
      → is_blank (trim_space channel) || is_blank (trim_space thread_id) ≡ false
      → any_row (λ q. text_eq q.conversation.id (next_con v)) v.content.conversations ≡ false
      → first_row of_thread v.content.conversations ≡ some r
      → (c : Conversation) × ((get_or_create_channel_conversation user_id channel thread_id name
            title provider model v).0
          ≡ ok c)
        × (c.id ≡ r.conversation.id)
  call_known name title provider model v r calm b d e =
      let (s, f, l) =
        first_row-upsert_thread user_id (thread_at v name title provider model)
          v.content.conversations in
      (s.conversation, ap (λ p. p.0) (call_result name title provider model v s calm b d f), l r e)
