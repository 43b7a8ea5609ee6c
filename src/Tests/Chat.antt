-- ===== src/Tests/Chat.antt =====
-- The theorems on limits, the WhatsApp channel and tracker suggestions at concrete inputs.
use be_miawai.Database.Trackers.Closed.{same, suggested, elsewhere, review_once}
use be_miawai.Tests.Jobs.{silent}
use be_miawai.Base.{
  ◌++◌, ◌∙◌, inr, inl, ℕ, Text, text_eq, some, none, codes, Option, ◌*◌, false, [], ◌≤◌, ◌≡◌, ◌∷◌,
  true, ◌+◌, if◌then◌else◌, ◌<◌, arith, ◌&&◌, not, ◌⊎◌, is_blank, refl, subst, sym, one_of, List,
}
use be_miawai.Handlers.Chat.{ChatService}
use be_miawai.Handlers.Settings.{ProviderConfig}
use be_miawai.Handlers.Limits.{
  LimitConfig, current_five_hour_usage_window, day, current_weekly_usage_window, is_pro, weekday,
  daily_prompt_limit_for_user, day_of, daily_image_limit_for_user, in_wib, check_user_quota,
}
use be_miawai.Handlers.WhatsApp.{handle_whatsapp_inbound, WhatsAppInboundInput}
use be_miawai.Database.World.{SuggestionRow, World, Error, err, ok, TrackerRow}
use be_miawai.Database.Trackers.{new_entry}
use be_miawai.Database.Trackers.Suggestions.{
  dismiss_tracker_suggestion, new_suggestion, approve_tracker_suggestion, create_tracker_suggestion,
}
use be_miawai.Database.Usage.{day_or_none, daily_usage_date, find_day}
use be_miawai.Base.Strings.{
  trim_prefix, trim_space, trim_left, trim_right, snoc_trim, is_space, has_prefix, drop_text,
}
use be_miawai.Handlers.WhatsApp.Speaker.{only_for, handle_whatsapp_inbound_speaker}
use be_miawai.Tests.Sample.{sample, ada, bot, old_phone, new_phone}
use be_miawai.Database.Rows.{any_row, touch_rows, rows_where, delete_rows}
use be_miawai.Database.Subscriptions.{second, hour}
use be_miawai.Handlers.WhatsApp.Gate.{
  handle_whatsapp_inbound_kept_out, unanswered, handle_whatsapp_inbound_stale, recorded, IsKeptOut,
}
use be_miawai.Handlers.Limits.Bounds.{current_usage_windows_bounds}
use be_miawai.Database.WhatsApp.{central_bot}
use be_miawai.Handlers.Reply.{Reply}
use be_miawai.Handlers.Limits.Quota.{check_user_quota_sound}
use be_miawai.Handlers.WhatsApp.Accounts.{whatsapp_inbound, account_status}
use be_miawai.Handlers.WhatsApp.Guard.{service_calls_guarded}
use be_miawai.Database.WhatsApp.Contacts.{resolve_whatsapp_contact}
use be_miawai.Models.{WhatsAppAccount, WhatsAppContact, User, TrackerEntryInput}
use be_miawai.Database.WhatsApp.Accounts.{create_whatsapp_event, find_account}
use be_miawai.Database.Keeps.{ok_injective}
use be_miawai.Database.Users.{scan_user}
use be_miawai.Database.Payments.{get_settled_credit_purchase_usd, settled_credit, credit_of}
use be_miawai.Base.Bytes.{byte_length}
use be_miawai.Handlers.Content.Valid.{
  TrackerRequest, update, run_requests, create, run_requests-IsValid, delete,
}
use be_miawai.Handlers.Content.Entries.{HasValidEntries}
use be_miawai.Handlers.Prompt.{
  PromptMessage, trim_prompt_messages_for_context, plain, prompt_messages_char_count,
}
use be_miawai.Base.Ints.{pos}
use be_miawai.Base.Lists.{length}
use be_miawai.Handlers.Prompt.Trim.{IsFull, trim_prompt_messages_for_context-IsFull}

abbrev echoing : ChatService
echoing = record {
  answer = λ input w. some (record {
    content = input.message;
    prompt_tokens = 10;
    completion_tokens = 5;
    researched = false;
  });
  status_reply = λ user w. codes "fine";
  history = λ id w. some 0;
  images_saved = λ n w. true;
  messages_saved = λ id n w. true;
  extractor = silent;
  worker_busy = λ w. false;
  tracker_answer = λ input w. some (codes "[]");
  decode_trackers = λ t. some [];
  message_id = λ input. codes "cmsg_1";
  image_urls = λ input. codes "[]";
}

abbrev silent_model : ChatService
silent_model = record echoing { answer = λ input w. none }

abbrev providers : ProviderConfig
providers = record {
  default_provider = codes "openai";
  default_provider_base_url = [];
  default_provider_api_key = codes "key";
  default_provider_system = codes "You are Miaw.";
  default_provider_models = codes "m" ∷ [];
  managed_ai_api_key = [];
}

abbrev limits : LimitConfig
limits = record {
  free_user_daily_prompt_limit = 20;
  pro_user_daily_prompt_limit = 0;
  free_user_daily_image_limit = 3;
  pro_user_daily_image_limit = 30;
  free_user_daily_web_research_limit = 0;
  pro_user_daily_web_research_limit = 10;
  free_user_five_hour_token_limit = 0;
  pro_user_five_hour_token_limit = 0;
  free_user_weekly_token_limit = 0;
  pro_user_weekly_token_limit = 0;
  free_user_included_credit_usd = 0;
  pro_user_included_credit_usd = 0;
  ai_cost_usd_per_1k_tokens = 0;
}

abbrev sent_at : ℕ → Text → Option ℕ
sent_at t s = some t

abbrev hello : Text → WhatsAppInboundInput
hello jid = record {
  account_id = codes "waacc_1";
  contact_jid = jid;
  sender_jid = jid;
  message_id = codes "m1";
  text = codes "hello";
  images = 0;
  timestamp = codes "t";
  display_name = codes "n";
}

current_usage_windows_bounds_example :
    let (start, reset) = current_five_hour_usage_window (8 * day) in
    let (week_start, week_reset) = current_weekly_usage_window (8 * day) in
    ((start ≤ 8 * day) × (8 * day < reset) × (reset ≤ start + 5 * hour))
    × ((week_start ≤ 8 * day)
        × (8 * day < week_reset)
        × (week_reset ≡ week_start + 7 * day)
        × (weekday (day_of (in_wib week_start)) ≡ 1))
current_usage_windows_bounds_example = current_usage_windows_bounds (8 * day) (omega arith)

service_calls_guarded_example :
    (r : Reply) × ((r.code ≡ 503) ⊎ (r.code ≡ 401))
    × (whatsapp_inbound echoing providers limits
          (sent_at 900)
          (codes "secret")
          (codes "Bearer guess")
          (some (hello (codes "61@s.whatsapp.net")))
          sample
        ≡ (err r, sample))
    × (account_status (codes "secret") (codes "Bearer guess") (codes "waacc_1") none sample
        ≡ (err r, sample))
unfolding text_eq trim_prefix trim_space trim_left trim_right snoc_trim is_space has_prefix
    drop_text
service_calls_guarded_example =
    service_calls_guarded echoing providers limits (sent_at 900) (codes "secret")
      (codes "Bearer guess") (codes "waacc_1") (some (hello (codes "61@s.whatsapp.net"))) none
      sample (inr refl)

handle_whatsapp_inbound_stale_example :
    handle_whatsapp_inbound echoing providers limits
      (sent_at (10 * 60 * second))
      (hello (codes "61@s.whatsapp.net"))
      sample
    ≡ (unanswered (hello (codes "61@s.whatsapp.net")), sample)
handle_whatsapp_inbound_stale_example =
    handle_whatsapp_inbound_stale echoing providers limits (sent_at (10 * 60 * second))
      (hello (codes "61@s.whatsapp.net")) sample (λ sent e. ground (arith, e))

resolved :
    (resolve_whatsapp_contact
      (codes "waacc_1")
      (codes "61@s.whatsapp.net")
      (codes "n")
      (recorded (hello (codes "61@s.whatsapp.net")) sample)).0
    ≡ ok (bot, record old_phone { display_name = codes "n" }, codes "bob")
unfolding find_account resolve_whatsapp_contact create_whatsapp_event text_eq trim_space trim_left
    trim_right snoc_trim is_space
resolved = refl

unlinked :
    (resolve_whatsapp_contact
      (codes "waacc_1")
      (codes "62@s.whatsapp.net")
      (codes "n")
      (recorded (hello (codes "62@s.whatsapp.net")) sample)).0
    ≡ ok (bot, record new_phone { display_name = codes "n" }, codes "ada")
unfolding find_account resolve_whatsapp_contact create_whatsapp_event text_eq trim_space trim_left
    trim_right snoc_trim is_space
unlinked = refl

kept_out :
    (account : WhatsAppAccount) (contact : WhatsAppContact) (user_id : Text)
    → (resolve_whatsapp_contact
        (codes "waacc_1")
        (codes "62@s.whatsapp.net")
        (codes "n")
        (recorded (hello (codes "62@s.whatsapp.net")) sample)).0
      ≡ ok (account, contact, user_id)
    → IsKeptOut account contact
unfolding text_eq
kept_out account contact user_id e =
    subst (λ q. IsKeptOut q.0 q.1) (ok_injective (sym unlinked ∙ e)) (inr (inl refl))

handle_whatsapp_inbound_speaker_example :
    (handle_whatsapp_inbound
        (only_for (codes "bob") echoing)
        providers
        limits
        (sent_at 900)
        (hello (codes "61@s.whatsapp.net"))
        sample
      ≡ handle_whatsapp_inbound echoing providers limits
          (sent_at 900)
          (hello (codes "61@s.whatsapp.net"))
          sample)
    × (codes "bob" ≡ (
        if text_eq bot.mode central_bot && not (is_blank old_phone.linked_user_id)
        then old_phone.linked_user_id
        else bot.owner_user_id))
handle_whatsapp_inbound_speaker_example =
    handle_whatsapp_inbound_speaker echoing providers limits (sent_at 900)
      (hello (codes "61@s.whatsapp.net")) sample bot (record old_phone { display_name = codes "n" })
      (codes "bob") resolved

handle_whatsapp_inbound_kept_out_example :
    handle_whatsapp_inbound echoing providers limits
      (sent_at 900)
      (hello (codes "62@s.whatsapp.net"))
      sample
    ≡ handle_whatsapp_inbound silent_model providers limits
        (sent_at 900)
        (hello (codes "62@s.whatsapp.net"))
        sample
handle_whatsapp_inbound_kept_out_example =
    handle_whatsapp_inbound_kept_out echoing silent_model providers limits (sent_at 900)
      (hello (codes "62@s.whatsapp.net")) sample kept_out

abbrev note : SuggestionRow
note =
    new_suggestion (codes "sug_1") (codes "ada")
      (record {
        topic = codes "finance";
        title = codes "Coffee";
        amount = codes "3";
        status = codes "tracked";
        category = codes "general";
        detail = [];
        source = codes "Manual";
        updated_from = codes "Manual";
        metadata = [];
      })
      (codes "h") 900

abbrev suggested_world : World
suggested_world = record sample {
  content = record sample.content { tracker_suggestions = note ∷ [] };
}

abbrev closed : World
closed = (dismiss_tracker_suggestion (codes "ada") (codes "sug_1") suggested_world).1

-- An hour later, and after another suggestion of the same text.
abbrev reopened : World
reopened =
    (create_tracker_suggestion (λ t. t) (codes "ada") note.suggestion.entry
      (record closed { now = 1000 + hour })).1

review_once_example :
    ((e : Error) × ((approve_tracker_suggestion (λ t. t) (codes "ada") (codes "sug_1") reopened).0
        ≡ err e)
      × ((approve_tracker_suggestion (λ t. t) (codes "ada") (codes "sug_1") reopened).1.content
          ≡ reopened.content))
    × ((e : Error) × ((dismiss_tracker_suggestion (codes "ada") (codes "sug_1") reopened).0 ≡ err e)
        × ((dismiss_tracker_suggestion (codes "ada") (codes "sug_1") reopened).1.content
            ≡ reopened.content))
unfolding dismiss_tracker_suggestion any_row touch_rows rows_where delete_rows text_eq
review_once_example =
    review_once (λ t. t) (λ t. t) (codes "ada") (codes "sug_1") suggested_world closed reopened
      (inr refl) (suggested (λ t. t) (codes "ada") note.suggestion.entry (elsewhere refl same))

abbrev ada_free : User
ada_free = scan_user ada

accepted : (check_user_quota limits ada_free 1 false sample).0 ≡ ok false
unfolding text_eq check_user_quota get_settled_credit_purchase_usd settled_credit one_of credit_of
accepted = refl

check_user_quota_sound_example :
    let d =
      day_or_none ada_free.id
        (daily_usage_date 1000)
        (find_day ada_free.id (daily_usage_date 1000) sample.daily_usage) in
    (false ≡ is_pro ada_free)
    × (is_pro ada_free ≡ false → false ≡ false)
    × (0 < daily_prompt_limit_for_user limits ada_free
        → d.prompt_count < daily_prompt_limit_for_user limits ada_free)
    × (0 < daily_image_limit_for_user limits ada_free
        → d.image_count + 1 ≤ daily_image_limit_for_user limits ada_free)
check_user_quota_sound_example = check_user_quota_sound limits ada_free 1 false sample refl accepted

abbrev tracker_row : TrackerEntryInput → TrackerRow
tracker_row input = new_entry (codes "trk_1") (codes "ada") input (codes "h") 900

abbrev kept : World
kept = record sample {
  content = record sample.content { tracker_entries = tracker_row note.suggestion.entry ∷ [] };
}

abbrev requests : List (User × TrackerRequest)
requests =
    (ada_free, update (codes "trk_1") (some note.suggestion.entry))
    ∷ (ada_free, create (some (record note.suggestion.entry { title = [] })))
    ∷ (ada_free, delete (codes "trk_1"))
    ∷ []

run_requests-IsValid_example : HasValidEntries (run_requests (λ t. t) requests kept)
unfolding one_of text_eq byte_length
run_requests-IsValid_example =
    run_requests-IsValid (λ t. t) requests kept ((refl, refl, omega arith, omega arith), tt)

abbrev lines : List PromptMessage
lines =
    record { role = codes "user"; content = plain (codes "hi") }
    ∷ record { role = codes "assistant"; content = plain (codes "hello") }
    ∷ record { role = codes "user"; content = plain (codes "again") }
    ∷ []

trim_prompt_messages_for_context-IsFull_example :
    let out = trim_prompt_messages_for_context lines (pos 2) (pos 0) in
    (length out ≤ 2)
    × ((prompt_messages_char_count out ≤ 24000) ⊎ (length out ≤ 1))
    × (front : List PromptMessage) × (front ++ out ≡ lines)
    × IsFull 2 24000 front out
trim_prompt_messages_for_context-IsFull_example =
    trim_prompt_messages_for_context-IsFull lines (pos 2) (pos 0)
