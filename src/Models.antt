-- ===== src/Models.antt =====
-- The records of internal/models/models.go that the modelled operations read and write, and the
-- identity that a session carries (internal/auth/session.go).
-- An instant is a number of nanoseconds; a nullable column is an `Option`.
use be_miawai.Base.{ℕ, List, Option, Text, Bool}
use be_miawai.Base.Ints.{ℤ}

-- `models.User`
pub record User : Type 0 where
  pub id : Text
  pub email : Text
  pub name : Text
  pub avatar_url : Text
  pub plan : Text
  pub role : Text
  pub access : List Text
  pub subscription_status : Text
  pub entitled_until : Option ℕ
  pub created_at : ℕ

-- `models.OAuthProfile`
pub record OAuthProfile : Type 0 where
  pub provider : Text
  pub provider_user_id : Text
  pub email : Text
  pub name : Text
  pub avatar_url : Text

-- A row of `subscriptions`, without the raw payload that no operation reads back.
pub record Subscription : Type 0 where
  pub id : Text
  pub user_id : Text
  pub platform : Text
  pub product_id : Text
  pub status : Text
  pub current_period_end : Option ℕ

-- `models.PaymentTransaction`, without the raw payload.
pub record PaymentTransaction : Type 0 where
  pub id : Text
  pub user_id : Text
  pub order_id : Text
  pub platform : Text
  pub product_id : Text
  pub amount : ℕ
  pub currency : Text
  pub status : Text

-- `models.UserDailyUsage`; the date is the number of days, in the zone of the counters.
pub record UserDailyUsage : Type 0 where
  pub user_id : Text
  pub usage_date : ℕ
  pub prompt_count : ℕ
  pub image_count : ℕ
  pub research_count : ℕ
  pub token_input : ℕ
  pub token_output : ℕ

-- `models.UsageWindow`
pub record UsageWindow : Type 0 where
  pub prompt_count : ℕ
  pub image_count : ℕ
  pub research_count : ℕ
  pub token_input : ℕ
  pub token_output : ℕ

-- `models.UserAPIKey`
pub record UserApiKey : Type 0 where
  pub id : Text
  pub user_id : Text
  pub name : Text
  pub key_prefix : Text
  pub status : Text
  pub last_used_at : Option ℕ
  pub created_at : ℕ
  pub revoked_at : Option ℕ

-- `models.WhatsAppAccount`
pub record WhatsAppAccount : Type 0 where
  pub id : Text
  pub owner_user_id : Text
  pub mode : Text
  pub display_name : Text
  pub phone_jid : Text
  pub status : Text
  pub session_ref : Text
  pub access_policy : Text
  pub qr_code : Text

-- `models.WhatsAppContact`; the empty text stands for NULL in the two references, as the
-- queries' COALESCE gives it.
pub record WhatsAppContact : Type 0 where
  pub id : Text
  pub whatsapp_account_id : Text
  pub owner_user_id : Text
  pub contact_jid : Text
  pub display_name : Text
  pub linked_user_id : Text
  pub default_conversation_id : Text
  pub allow_status : Text
  pub verification_attempts : ℕ

-- `models.WhatsAppLinkCode`
pub record WhatsAppLinkCode : Type 0 where
  pub id : Text
  pub user_id : Text
  pub phone_number : Text
  pub code : Text
  pub status : Text
  pub attempts : ℕ
  pub expires_at : ℕ
  pub matched_contact_jid : Text

-- `models.WhatsAppEvent`
pub record WhatsAppEvent : Type 0 where
  pub id : Text
  pub whatsapp_account_id : Text
  pub contact_jid : Text
  pub sender_jid : Text
  pub direction : Text
  pub message_id : Text
  pub conversation_id : Text
  pub text : Text

-- `auth.SessionIdentity`
pub record SessionIdentity : Type 0 where
  pub user_id : Text
  pub email : Text
  pub role : Text
  pub access : List Text

-- A `map[string]any` that is stored as JSON: its keys, and the JSON text of their values.
abbrev pub Metadata : Type 0
Metadata = List (Text × Text)

-- `models.MemoryInput`; the confidence, a float, in thousandths.
pub record MemoryInput : Type 0 where
  pub domain : Text
  pub kind : Text
  pub title : Text
  pub content : Text
  pub source_conversation_id : Text
  pub confidence : ℤ
  pub metadata : Metadata

-- `models.UserMemory`
pub record UserMemory : Type 0 where
  pub id : Text
  pub domain : Text
  pub kind : Text
  pub title : Text
  pub content : Text
  pub source_conversation_id : Text
  pub confidence : ℤ
  pub metadata : Metadata
  pub created_at : ℕ
  pub updated_at : ℕ

-- `models.MemoryExtractionJob`
pub record MemoryExtractionJob : Type 0 where
  pub id : Text
  pub user_id : Text
  pub conversation_id : Text
  pub user_message : Text
  pub assistant_reply : Text
  pub status : Text
  pub attempts : ℕ
  pub last_error : Text
  pub run_after : ℕ
  pub created_at : ℕ
  pub updated_at : ℕ

-- `models.TrackerEntryInput`
pub record TrackerEntryInput : Type 0 where
  pub topic : Text  -- `Module`
  pub title : Text
  pub amount : Text
  pub status : Text
  pub category : Text
  pub detail : Text
  pub source : Text
  pub updated_from : Text
  pub metadata : Metadata

-- `models.TrackerEntry`: what was put in, and the row's own columns.
pub record TrackerEntry : Type 0 where
  pub id : Text
  pub entry : TrackerEntryInput
  pub created_at : ℕ
  pub updated_at : ℕ

-- `models.TrackerSuggestion`
pub record TrackerSuggestion : Type 0 where
  pub id : Text
  pub entry : TrackerEntryInput
  pub review_status : Text
  pub created_tracker_entry_id : Text
  pub created_at : ℕ
  pub updated_at : ℕ

-- `models.RuntimeModels`
pub record RuntimeModels : Type 0 where
  pub active : Text
  pub all : List Text

-- `models.RuntimeSettings`
pub record RuntimeSettings : Type 0 where
  pub provider : Text
  pub base_url : Text
  pub api_key : Text
  pub system_prompt : Text
  pub models : RuntimeModels

-- `models.Conversation`
pub record Conversation : Type 0 where
  pub id : Text
  pub title : Text
  pub pinned : Bool
  pub is_cloud_synced : Bool
  pub channel : Text
  pub channel_thread_id : Text
  pub channel_display_name : Text
  pub provider : Text
  pub model : Text
  pub last_message_preview : Text
  pub message_count : ℕ
  pub updated_at : ℕ
