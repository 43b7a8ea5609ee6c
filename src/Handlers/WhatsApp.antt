-- ===== src/Handlers/WhatsApp.antt =====
-- The WhatsApp channel of internal/handlers/whatsapp.go: the inbound messages.
pub mod Gate
pub mod Speaker
pub mod Accounts
pub mod Guard
use be_miawai.Base.{
  ℕ, ◌+◌, ◌-◌, ◌*◌, [], ◌∷◌, ◌++◌, Option, none, some, Bool, true, false, not, ◌&&◌, ◌||◌, Text,
  codes, text_eq, one_of, is_blank, ltb, leb, ◌==◌, if◌then◌else◌,
}
use be_miawai.Base.Strings.{trim_space, folded, to_lower}
use be_miawai.Base.Bytes.{byte_length}
use be_miawai.Models.{
  User, RuntimeSettings, Conversation, WhatsAppAccount, WhatsAppContact, WhatsAppEvent,
}
use be_miawai.Database.World.{
  World, M, Query, Result, Error, no_rows, ok, err, pure, raise, raise_if, gets, ◌>>=◌, ◌>>◌,
}
use be_miawai.Database.Subscriptions.{second}
use be_miawai.Database.Users.{get_user_by_id}
use be_miawai.Database.Conversations.{
  get_or_create_channel_conversation, set_whatsapp_contact_conversation, update_conversation_stats,
  whatsapp,
}
use be_miawai.Database.WhatsApp.{
  central_bot, user_linked, allowed, blocked, incoming, outgoing, linked_only, deny_unknown,
  is_digit,
}
use be_miawai.Database.WhatsApp.Accounts.{create_whatsapp_event}
use be_miawai.Database.WhatsApp.Contacts.{resolve_whatsapp_contact}
use be_miawai.Database.WhatsApp.Links.{
  Verification, verify_whatsapp_link_code, link_code_belongs_to_different_contact,
}
use be_miawai.Handlers.Settings.{
  ProviderConfig, load_runtime_settings, apply_runtime_defaults, first_non_empty,
}
use be_miawai.Handlers.Limits.{LimitConfig, is_pro, check_user_quota, is_status_command, QuotaError}
use be_miawai.Handlers.Accounts.{equal_fold}
use be_miawai.Handlers.Extraction.{is_incomplete}
use be_miawai.Handlers.Chat.{
  ChatService, ChatError, ChatReplyInput, settings_failed, settings_incomplete, quota_exceeded,
  conversation_failed, history_failed, images_failed, messages_failed, stats_failed, staged,
  unchecked, ensured, asked, process_chat_reply,
}

-- `WhatsAppInboundInput`, with the number of its images.
pub record WhatsAppInboundInput : Type 0 where
  pub account_id : Text
  pub contact_jid : Text
  pub sender_jid : Text
  pub message_id : Text
  pub text : Text
  pub images : ℕ
  pub timestamp : Text
  pub display_name : Text

-- `WhatsAppInboundResult`
pub record WhatsAppInboundResult : Type 0 where
  pub conversation_id : Text
  pub reply_text : Text
  pub should_reply : Bool

pub data InboundError : Type 0 where
  bad_request not_found resolve_failed verify_failed owner_check_failed user_failed : InboundError

abbrev pub silence : WhatsAppInboundResult
silence = record { conversation_id = []; reply_text = []; should_reply = false }

abbrev pub saying : Text → Text → WhatsAppInboundResult
saying conversation_id text = record {
  conversation_id = conversation_id;
  reply_text = text;
  should_reply = true;
}

-- `isWhatsAppLinkCodeText`
unfoldable pub all_digits : Text → Bool
all_digits [] = true
all_digits (c ∷ s) = is_digit c && all_digits s

unfoldable pub is_whatsapp_link_code_text : Text → Bool
unfolding all_digits byte_length
is_whatsapp_link_code_text text = byte_length (trim_space text) == 6 && all_digits (trim_space text)

abbrev pub within : ℕ → Option ℕ → Bool
within now none = false
within now (some sent) = leb sent (now + 60 * second) && leb now (sent + 5 * 60 * second)

-- `whatsAppContactAllowed`
unfoldable pub whatsapp_contact_allowed : WhatsAppAccount → WhatsAppContact → Bool
whatsapp_contact_allowed account contact =
    if one_of (folded account.access_policy) (linked_only ∷ deny_unknown ∷ [])
    then text_eq contact.allow_status allowed
    else true

-- `fmtInt` of the attempts that are left, which are fewer than ten.
abbrev pub fmt_int : ℕ → Text
fmt_int n = (b'0' + n) ∷ []

-- What an unlinked number is told.
abbrev pub refusal : WhatsAppContact → ℕ → Text
refusal contact attempts =
    if ltb 0 attempts && ltb attempts 3
    then codes "Kode verifikasi WhatsApp belum cocok. Sisa percobaan: "
      ++ fmt_int (3 - attempts)
      ++ codes "."
    else if leb 3 attempts
    then codes
        "Kode verifikasi WhatsApp terkunci setelah 3 percobaan. Generate kode baru dari Miaw web."
    else if text_eq contact.allow_status blocked
    then codes
        "Nomor WhatsApp ini sudah dicabut dari akun Miaw. Generate kode baru dari Miaw web atau Android jika ingin menghubungkan lagi."
    else codes
        "Nomor WhatsApp ini belum terhubung ke akun Miaw. Buka Miaw web atau Android, Settings > WhatsApp, generate kode, lalu kirim kode itu ke sini."

abbrev pub welcome : Text
welcome =
    codes
      "Nomor WhatsApp berhasil terhubung ke akun Miaw. Sekarang kamu bisa chat dengan Miaw dari WhatsApp ini."

abbrev pub apology : Text
apology = codes "Maaf, Miaw sedang tidak bisa menjawab. Coba lagi sebentar ya."

abbrev pub event_of : WhatsAppInboundInput → Text → Text → Text → Text → WhatsAppEvent
event_of input sender direction conversation_id text = record {
  id = [];
  whatsapp_account_id = input.account_id;
  contact_jid = input.contact_jid;
  sender_jid = sender;
  direction = direction;
  message_id = input.message_id;
  conversation_id = conversation_id;
  text = text;
}

-- `_, _ = s.store.…`
abbrev pub noting : {A : Type 0} → Query A → M InboundError (Unit {0})
noting m w = (ok tt, (m w).1)

abbrev pub renamed :
    {A : Type 0} → (Error → InboundError) → Result Error A × World → Result InboundError A × World
renamed f (ok a, w) = (ok a, w)
renamed f (err e, w) = (err (f e), w)

abbrev pub asking : {A : Type 0} → (Error → InboundError) → Query A → M InboundError A
asking f m w = renamed f (m w)

-- `logWhatsAppOutgoing`, and the result.
unfoldable pub log_whatsapp_outgoing :
    WhatsAppInboundInput → WhatsAppInboundResult → M InboundError WhatsAppInboundResult
unfolding create_whatsapp_event
log_whatsapp_outgoing input result =
    if not result.should_reply || is_blank (trim_space result.reply_text) then pure result else do
      noting (
          create_whatsapp_event
            (event_of input [] outgoing result.conversation_id result.reply_text))
      pure result

-- The message of an unlinked number to the central bot is a code, or not.
abbrev pub answer_unlinked :
    WhatsAppInboundInput → WhatsAppContact → M InboundError WhatsAppInboundResult
answer_unlinked input contact = do
  v ←
      asking (λ e. verify_failed)
        (verify_whatsapp_link_code contact.id contact.contact_jid (trim_space input.text))
  log_whatsapp_outgoing input
      (saying [] (if v.matched then welcome else refusal contact v.attempts))

abbrev pub is_unlinked : WhatsAppAccount → WhatsAppContact → Bool
is_unlinked account contact =
    text_eq account.mode central_bot
    && (not (text_eq contact.allow_status allowed) || is_blank contact.linked_user_id)

abbrev pub resolve_error : Error → InboundError
resolve_error no_rows = not_found
resolve_error _ = resolve_failed

-- The conversation so far, where an answer fails.
pub record Failed : Type 0 where
  pub conversation_id : Text
  pub stage : ChatError

abbrev pub failed_at : {A : Type 0} → Text → Result ChatError A × World → Result Failed A × World
failed_at id (ok a, w) = (ok a, w)
failed_at id (err e, w) = (err (record { conversation_id = id; stage = e }), w)

abbrev pub trying : {A : Type 0} → Text → M ChatError A → M Failed A
trying id m w = failed_at id (m w)

abbrev pub quota_as : Result QuotaError Bool × World → Result ChatError Bool × World
quota_as (ok b, w) = (ok b, w)
quota_as (err e, w) = (err quota_exceeded, w)

-- `managedFreeTierModel`
abbrev pub managed_free_tier_model : Text
managed_free_tier_model = codes "customai-tunning"

abbrev pub managed_settings : ProviderConfig → User → RuntimeSettings → RuntimeSettings
managed_settings cfg user s =
    if is_blank (trim_space s.api_key) && not (is_blank cfg.managed_ai_api_key)
    then record s {
      api_key = cfg.managed_ai_api_key;
      models =
          if is_pro user then s.models else record s.models { active = managed_free_tier_model };
    }
    else s

-- What the answer to a message is made of.
pub record Prepared : Type 0 where
  pub conversation : Conversation
  pub settings : RuntimeSettings
  pub message_count : ℕ
  pub web_allowed : Bool

abbrev pub reply_input : User → Text → ℕ → Prepared → ChatReplyInput
reply_input user text images p = record {
  user = user;
  conversation = p.conversation;
  settings = p.settings;
  message_count = p.message_count;
  message = text;
  image_count = images;
  web_allowed = p.web_allowed;
}

module _ (service : ChatService) (providers : ProviderConfig) (limits : LimitConfig)
    (parse_time : Text → Option ℕ) where
  -- `isRecentWhatsAppInbound`; the parameter reads RFC 3339, and gives nothing for the zero time.
  unfoldable pub is_recent_whatsapp_inbound : Text → ℕ → Bool
  is_recent_whatsapp_inbound raw_timestamp now = within now (parse_time (trim_space raw_timestamp))

  abbrev pub quota : User → Text → ℕ → M ChatError Bool
  quota user text images w =
      if is_status_command text
      then (ok false, w)
      else quota_as (check_user_quota limits user images false w)

  -- `processWhatsAppMessage` up to the answer: the message is in its conversation.
  unfoldable pub prepare_whatsapp_message :
      User → WhatsAppAccount → WhatsAppContact → Text → ℕ → M Failed Prepared
  unfolding is_status_command check_user_quota first_non_empty
  prepare_whatsapp_message user account contact text images = do
    loaded ← trying [] (staged settings_failed (load_runtime_settings providers user.id))
    let settings = managed_settings providers user (apply_runtime_defaults loaded)
    raise_if (is_incomplete settings) (record { conversation_id = []; stage = settings_incomplete })
    web_allowed ← trying [] (quota user text images)
    let display_name = first_non_empty (contact.display_name ∷ contact.contact_jid ∷ [])
    conversation ← trying [] (
        staged conversation_failed (
          get_or_create_channel_conversation user.id whatsapp
            (codes "wa:" ++ account.id ++ codes ":" ++ contact.contact_jid) display_name
            (codes "WhatsApp: " ++ display_name) settings.provider settings.models.active))
    trying conversation.id
        (unchecked (set_whatsapp_contact_conversation contact.id conversation.id))
    before ← trying conversation.id (asked history_failed (service.history conversation.id))
    trying conversation.id (ensured images_failed (service.images_saved images))
    trying conversation.id
        (ensured messages_failed (service.messages_saved conversation.id (before + 1)))
    trying conversation.id
        (staged stats_failed (update_conversation_stats user.id conversation.id text (before + 1)))
    pure (record {
      conversation = conversation;
      settings = settings;
      message_count = before + 1;
      web_allowed = web_allowed;
    })

  -- The answer to a message that is in its conversation.
  abbrev pub answer_prepared : User → Text → ℕ → Prepared → M Failed (Text × Text)
  answer_prepared user text images p = do
    result ← trying p.conversation.id (process_chat_reply service (reply_input user text images p))
    pure (result.0, result.1.id)

  -- `processWhatsAppMessage`: the reply and its conversation's id.
  unfoldable pub process_whatsapp_message :
      User → WhatsAppAccount → WhatsAppContact → Text → ℕ → M Failed (Text × Text)
  unfolding prepare_whatsapp_message
  process_whatsapp_message user account contact text images =
      prepare_whatsapp_message user account contact text images >>= answer_prepared user text images

  -- The reply, or the apology.
  abbrev pub reply_of : Result Failed (Text × Text) × World → WhatsAppInboundResult × World
  reply_of (ok r, w) = (saying r.1 r.0, w)
  reply_of (err f, w) = (saying f.conversation_id apology, w)

  abbrev pub logged :
      WhatsAppInboundInput
      → WhatsAppInboundResult × World
      → Result InboundError WhatsAppInboundResult × World
  logged input (result, w) = log_whatsapp_outgoing input result w

  abbrev pub answer_as :
      WhatsAppInboundInput
      → WhatsAppAccount
      → WhatsAppContact
      → User
      → M InboundError WhatsAppInboundResult
  answer_as input account contact user w = logged input (
      reply_of
        (process_whatsapp_message user account contact (trim_space input.text) input.images w))

  -- Is the message another number's link code?
  abbrev pub foreign_code : WhatsAppAccount → WhatsAppContact → Text → M InboundError Bool
  foreign_code account contact text =
      if text_eq account.mode central_bot && is_whatsapp_link_code_text text
      then asking (λ e. owner_check_failed)
          (link_code_belongs_to_different_contact contact.contact_jid text)
      else pure false

  -- The message of a number that may be answered, as the user whom it speaks for.
  abbrev pub answer_linked :
      WhatsAppInboundInput
      → WhatsAppAccount
      → WhatsAppContact
      → Text
      → M InboundError WhatsAppInboundResult
  answer_linked input account contact user_id = do
    foreign ← foreign_code account contact (trim_space input.text)
    if foreign
          || (text_eq account.mode user_linked && not (whatsapp_contact_allowed account contact))
        then pure silence
        else do
          user ← asking (λ e. user_failed) (get_user_by_id user_id)
          answer_as input account contact user

  -- Who is answered, and how.
  abbrev pub dispatch :
      WhatsAppInboundInput
      → WhatsAppAccount
      → WhatsAppContact
      → Text
      → M InboundError WhatsAppInboundResult
  dispatch input account contact user_id =
      if not (equal_fold account.status (codes "connected"))
      then pure silence
      else if is_unlinked account contact
      then answer_unlinked input contact
      else answer_linked input account contact user_id

  -- `HandleWhatsAppInbound`
  unfoldable pub handle_whatsapp_inbound :
      WhatsAppInboundInput → M InboundError WhatsAppInboundResult
  unfolding is_recent_whatsapp_inbound
  handle_whatsapp_inbound input =
      raise_if
        (is_blank (trim_space input.account_id)
          || is_blank (trim_space input.contact_jid)
          || (is_blank (trim_space input.text) && input.images == 0))
        bad_request
      >> do
        now ← gets (λ w. w.now)
        if not (is_recent_whatsapp_inbound input.timestamp now) then pure silence else do
          noting (
              create_whatsapp_event
                (event_of input input.sender_jid incoming [] (trim_space input.text)))
          resolved ←
              asking resolve_error
                (resolve_whatsapp_contact input.account_id input.contact_jid input.display_name)
          dispatch input resolved.0 resolved.1 resolved.2
