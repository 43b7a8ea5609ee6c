-- ===== src/Database/Conversations/Thread.antt =====
-- A thread of a channel keeps its conversation (internal/database/whatsapp_store.go).
use be_miawai.Database.Conversations.Channel.{
  call_known, call_guards, next_con, thread_at, first_row-upsert_thread, call_result,
}
use be_miawai.Base.{
  [], ◌∷◌, ◌≡◌, ◌≤◌, ◌∙◌, refl, true, false, some, inl, inr, arith, Bool, List, Text, sym,
  Bool-cases, subst, text_eq, ap,
}
use be_miawai.Database.World.{ok, ConversationRow, World, Calm, Result, Error}
use be_miawai.Database.Rows.{touch_rows, any_row, update_rows, delete_rows, first_row}
use be_miawai.Database.Rows.Count.{count, count-none}
use be_miawai.Base.Lists.{All}
use be_miawai.Database.Rows.Every.{any_row-touch_rows_kept, All-touch_rows, All-left}
use be_miawai.Database.Conversations.{
  upsert_thread, is_thread, refresh_thread, get_or_create_channel_conversation,
}
use be_miawai.Models.{Conversation}
use be_miawai.Base.Strings.{trim_space}
use be_miawai.Database.Rows.Apart.{first_row-any, any_row-first}

-- Later conversations: after insertions of other threads' conversations, updates that leave the
-- rows' ids and what thread they are of, and deletions of others than this thread's.
pub data Later (thread : ConversationRow → Bool) (rs : List ConversationRow)
    : List ConversationRow → Type 0 where
  same : Later thread rs rs
  inserted :
      {ss : List ConversationRow} (r : ConversationRow)
      → thread r ≡ false
      → Later thread rs ss
      → Later thread rs (r ∷ ss)
  touched :
      {ss : List ConversationRow} (test : ConversationRow → Bool)
      (change : ConversationRow → ConversationRow)
      → ((r : ConversationRow) → thread (change r) ≡ thread r)
      → ((r : ConversationRow) → (change r).conversation.id ≡ r.conversation.id)
      → Later thread rs ss
      → Later thread rs (touch_rows test change ss)
  updated :
      {ss : List ConversationRow} (test : ConversationRow → Bool)
      (change : ConversationRow → ConversationRow)
      → ((r : ConversationRow) → thread (change r) ≡ thread r)
      → ((r : ConversationRow) → (change r).conversation.id ≡ r.conversation.id)
      → Later thread rs ss
      → Later thread rs (update_rows test change ss)
  deleted :
      {ss : List ConversationRow} (test : ConversationRow → Bool)
      → ((r : ConversationRow) → thread r ≡ true → test r ≡ false)
      → Later thread rs ss
      → Later thread rs (delete_rows test ss)

module _ (thread : ConversationRow → Bool) (id : Text) where
  abbrev Named : ConversationRow → Type 0
  Named r = thread r ≡ true → r.conversation.id ≡ id

  -- The thread has a conversation, and all of its rows have the id.
  abbrev pub Holds : List ConversationRow → Type 0
  Holds rs = (any_row thread rs ≡ true) × All Named rs

  update_rows-All :
      (test : ConversationRow → Bool) (change : ConversationRow → ConversationRow)
      (rs : List ConversationRow)
      → ((r : ConversationRow) → Named r → Named (change r))
      → All Named rs
      → All Named (update_rows test change rs)
  unfolding update_rows
  update_rows-All test change [] k h = tt
  update_rows-All test change (r ∷ rs) k (p, h) = (
    elim (Bool-cases (test r)) [ inl t ↦ rw t (k r p) | inr t ↦ rw t p ],
    update_rows-All test change rs k h,
  )

  update_rows-any :
      (test : ConversationRow → Bool) (change : ConversationRow → ConversationRow)
      (rs : List ConversationRow)
      → ((r : ConversationRow) → thread (change r) ≡ thread r)
      → any_row thread rs ≡ true
      → any_row thread (update_rows test change rs) ≡ true
  unfolding update_rows any_row
  update_rows-any test change [] k h = cc
  update_rows-any test change (r ∷ rs) k h =
      ground (arith, h, k r, update_rows-any test change rs k)

  delete_rows-any :
      (test : ConversationRow → Bool) (rs : List ConversationRow)
      → ((r : ConversationRow) → thread r ≡ true → test r ≡ false)
      → any_row thread rs ≡ true
      → any_row thread (delete_rows test rs) ≡ true
  unfolding delete_rows any_row
  delete_rows-any test [] k h = cc
  delete_rows-any test (r ∷ rs) k h = ground (arith, h, k r, delete_rows-any test rs k)

  named :
      (change : ConversationRow → ConversationRow) (r : ConversationRow)
      → thread (change r) ≡ thread r
      → (change r).conversation.id ≡ r.conversation.id
      → Named r
      → Named (change r)
  named change r t i n h = i ∙ n (sym t ∙ h)

  pub Later-Holds : {rs ss : List ConversationRow} → Later thread rs ss → Holds rs → Holds ss
  unfolding any_row
  Later-Holds same h = h
  Later-Holds (inserted r t l) h =
      let (a, n) = Later-Holds l h in (ground (arith, a), ((λ e. ground (arith, t, e)), n))
  Later-Holds (touched {ss} test change t i l) h =
      let (a, n) = Later-Holds l h in
      (
        any_row-touch_rows_kept thread test change ss (λ r e. t r ∙ e) a,
        All-touch_rows Named test change ss (λ r. named change r (t r) (i r)) n,
      )
  Later-Holds (updated {ss} test change t i l) h =
      let (a, n) = Later-Holds l h in
      (
        update_rows-any test change ss t a,
        update_rows-All test change ss (λ r. named change r (t r) (i r)) n,
      )
  Later-Holds (deleted {ss} test k l) h =
      let (a, n) = Later-Holds l h in (delete_rows-any test ss k a, All-left Named test ss n)

  first_row-Named :
      (rs : List ConversationRow) (r : ConversationRow)
      → All Named rs
      → first_row thread rs ≡ some r
      → thread r ≡ true
      → r.conversation.id ≡ id
  unfolding first_row
  first_row-Named [] r n h t = cc
  first_row-Named (x ∷ rs) r (p, n) h t = ground (arith, p, h, t, first_row-Named rs r n)

  none-Named : (rs : List ConversationRow) → any_row thread rs ≡ false → All Named rs
  unfolding any_row
  none-Named [] h = tt
  none-Named (r ∷ rs) h = ((λ e. ground (arith, h, e)), none-Named rs (ground (arith, h)))

  none_counted : (rs : List ConversationRow) → count thread rs ≡ 0 → any_row thread rs ≡ false
  unfolding count any_row
  none_counted [] h = refl
  none_counted (r ∷ rs) h = ground (arith, h, none_counted rs)

  unique-Named :
      (rs : List ConversationRow) (s : ConversationRow)
      → count thread rs ≤ 1
      → first_row thread rs ≡ some s
      → s.conversation.id ≡ id
      → All Named rs
  unfolding count first_row
  unique-Named [] s u h e = tt
  unique-Named (r ∷ rs) s u h e = elim (Bool-cases (thread r)) [
    | inl t ↦
        let none_left : any_row thread rs ≡ false = none_counted rs (ground (arith, t, u)) in
        let first : s ≡ r = ground (arith, t, h) in
        ((λ k. subst (λ q. q.conversation.id ≡ id) first e), none-Named rs none_left)
    | inr t ↦ (
      (λ k. ground (arith, t, k)),
      unique-Named rs s (ground (arith, t, u)) (ground (arith, t, h)) e,
    )
  ]

  count-update_rows :
      (test : ConversationRow → Bool) (change : ConversationRow → ConversationRow)
      (rs : List ConversationRow)
      → ((r : ConversationRow) → thread (change r) ≡ thread r)
      → count thread (update_rows test change rs) ≡ count thread rs
  unfolding count update_rows
  count-update_rows test change [] k = refl
  count-update_rows test change (r ∷ rs) k = ground (arith, k r, count-update_rows test change rs k)

-- No thread has two conversations.
count-upsert_thread :
    (user_id : Text) (c : Conversation) (rs : List ConversationRow)
    → count (is_thread user_id c.channel c.channel_thread_id) rs ≤ 1
    → count (is_thread user_id c.channel c.channel_thread_id) (upsert_thread user_id c rs) ≤ 1
unfolding upsert_thread count
count-upsert_thread user_id c rs u =
    let test : ConversationRow → Bool = is_thread user_id c.channel c.channel_thread_id in
    elim (Bool-cases (any_row test rs)) [
      | inl t ↦ rw t (
          subst (λ n. n ≤ 1)
            (sym (
              count-update_rows test c.id test
                (refresh_thread c.channel_display_name c.provider c.model) rs (λ r. refl)))
            u)
      | inr t ↦ rw t (ground (arith, count-none test rs t))
    ]

-- A thread of a channel that has at most one conversation keeps it: after a call for the thread
-- that succeeded, and any insertions of other threads' conversations, updates that leave ids and
-- threads, and deletions of others than this thread's, a call for it, where no statement fails and
-- no conversation has the id drawn next, succeeds with the conversation of the same id, whatever
-- the two calls give as names, titles, providers and models.
pub get_or_create_channel_conversation_stable :
    (user_id channel thread_id name title provider model name' title' provider' model' : Text)
    (w v : World) {c : Conversation}
    → Calm w
    → let thread = is_thread user_id (trim_space channel) (trim_space thread_id) in
      let first =
        get_or_create_channel_conversation user_id channel thread_id name title provider model w in
      count thread w.content.conversations ≤ 1
      → first.0 ≡ ok c
      → Later thread first.1.content.conversations v.content.conversations
      → Calm v
      → any_row (λ r. text_eq r.conversation.id (next_con v)) v.content.conversations ≡ false
      → (c' : Conversation) × ((get_or_create_channel_conversation user_id channel thread_id name'
            title' provider' model' v).0
          ≡ ok c')
        × (c'.id ≡ c.id)
get_or_create_channel_conversation_stable user_id channel thread_id name title provider model name'
      title' provider' model' w v {c} calm one h l calm' fresh =
    let thread : ConversationRow → Bool =
      is_thread user_id (trim_space channel) (trim_space thread_id) in
    let (b, d) = call_guards user_id channel thread_id name title provider model w calm h in
    let made : Conversation = thread_at user_id channel thread_id w name title provider model in
    let (r, e, k) = first_row-upsert_thread user_id made w.content.conversations in
    let result = call_result user_id channel thread_id name title provider model w r calm b d e in
    let same_row : Path (Result Error Conversation) (ok r.conversation) (ok c) =
      sym (ap (λ p. p.0) result) ∙ h in
    let held : Holds thread r.conversation.id (upsert_thread user_id made w.content.conversations) =
      (
        first_row-any thread (upsert_thread user_id made w.content.conversations) r e,
        unique-Named thread r.conversation.id (upsert_thread user_id made w.content.conversations) r
            (count-upsert_thread user_id made w.content.conversations one) e refl,
      ) in
    let (a, n) = Later-Holds thread r.conversation.id l (
      subst (Holds thread r.conversation.id) (sym (ap (λ p. p.1.content.conversations) result))
        held) in
    let (s, f, t) = any_row-first thread v.content.conversations a in
    let (c', g, i) =
      call_known user_id channel thread_id name' title' provider' model' v s calm' b fresh f in
    (
      c',
      g,
      i
          ∙ first_row-Named thread r.conversation.id v.content.conversations s n f t
          ∙ ground (arith, same_row),
    )
