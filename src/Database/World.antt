-- ===== src/Database/World.antt =====
-- The database of internal/database as a value, and what runs against it: a computation takes the
-- world and gives a result and the world after it.
use be_miawai.Base.{
  ℕ, ◌+◌, ◌≡◌, List, [], ◌∷◌, ◌++◌, Option, none, some, Bool, false, Text, text_eq, if◌then◌else◌,
}
use be_miawai.Models.{
  UserDailyUsage, Subscription, PaymentTransaction, UserApiKey, WhatsAppAccount, WhatsAppContact,
  WhatsAppLinkCode, WhatsAppEvent, UserMemory, MemoryExtractionJob, TrackerEntry, TrackerSuggestion,
  RuntimeSettings, Conversation,
}

-- A row of `users`: `models.User` without the role and the access, which no table holds.
pub record UserRow : Type 0 where
  pub id : Text
  pub email : Text
  pub name : Text
  pub avatar_url : Text
  pub plan : Text
  pub subscription_status : Text
  pub entitled_until : Option ℕ
  pub created_at : ℕ

-- A row of `oauth_accounts`.
pub record OAuthAccount : Type 0 where
  pub user_id : Text
  pub provider : Text
  pub provider_user_id : Text
  pub email : Text

-- A row of `password_accounts`.
pub record PasswordRow : Type 0 where
  pub user_id : Text
  pub email : Text
  pub password_hash : Text

-- A row of `desktop_auth_codes`.
pub record DesktopAuthCode : Type 0 where
  pub code : Text
  pub user_id : Text
  pub expires_at : ℕ
  pub used_at : Option ℕ

-- A row of `user_api_keys`: the key's record, and the hash that no query returns.
pub record ApiKeyRow : Type 0 where
  pub key : UserApiKey
  pub key_hash : Text

-- A row of `user_usage_events`.
pub record UsageEvent : Type 0 where
  pub id : Text
  pub user_id : Text
  pub token_input : ℕ
  pub token_output : ℕ
  pub image_count : ℕ
  pub research_count : ℕ
  pub created_at : ℕ

-- A row of `user_memories`.
pub record MemoryRow : Type 0 where
  pub memory : UserMemory
  pub user_id : Text
  pub content_hash : Text
  pub deleted_at : Option ℕ

-- A row of `memory_extraction_jobs`.
pub record JobRow : Type 0 where
  pub job : MemoryExtractionJob
  pub max_attempts : ℕ
  pub locked_at : Option ℕ

-- A row of `tracker_entries`.
pub record TrackerRow : Type 0 where
  pub tracker : TrackerEntry
  pub user_id : Text
  pub content_hash : Text
  pub deleted_at : Option ℕ

-- A row of `tracker_suggestions`.
pub record SuggestionRow : Type 0 where
  pub suggestion : TrackerSuggestion
  pub user_id : Text
  pub content_hash : Text

-- A row of `user_runtime_settings`.
pub record SettingsRow : Type 0 where
  pub user_id : Text
  pub settings : RuntimeSettings

-- A row of `conversations`.
pub record ConversationRow : Type 0 where
  pub conversation : Conversation
  pub user_id : Text

-- The tables of what a user has written and set up.
pub record Content : Type 0 where
  pub memories : List MemoryRow
  pub memory_jobs : List JobRow
  pub tracker_entries : List TrackerRow
  pub tracker_suggestions : List SuggestionRow
  pub runtime_settings : List SettingsRow
  pub conversations : List ConversationRow

-- The tables, the instant at which the request runs, the random identifiers still to be drawn,
-- and which of the coming statements fail. A table's newest row comes first: an insertion, or
-- an update where a query orders by `updated_at`, puts its row in front.
pub record World : Type 0 where
  pub users : List UserRow
  pub oauth_accounts : List OAuthAccount
  pub password_accounts : List PasswordRow
  pub subscriptions : List Subscription
  pub payments : List PaymentTransaction
  pub desktop_codes : List DesktopAuthCode
  pub api_keys : List ApiKeyRow
  pub wa_accounts : List WhatsAppAccount
  pub wa_contacts : List WhatsAppContact
  pub wa_links : List WhatsAppLinkCode
  pub wa_events : List WhatsAppEvent
  pub daily_usage : List UserDailyUsage
  pub usage_events : List UsageEvent
  pub content : Content
  pub now : ℕ
  pub random : ℕ → Text
  pub draws : ℕ
  pub faults : List Bool

-- `sql.ErrNoRows`, a statement that the database did not carry out, a violated constraint, and
-- the package's own errors.
pub data Error : Type 0 where
  no_rows db_fault constraint : Error
  email_already_exists desktop_code_invalid api_key_invalid : Error
  trial_already_used email_required provider_required : Error
  contact_jid_required phone_required already_linked owner_required channel_required : Error

pub data Result (E A : Type 0) : Type 0 where
  ok : A → Result E A
  err : E → Result E A

abbrev pub M : Type 0 → Type 0 → Type 0
M E A = World → Result E A × World

-- What the store's methods are.
abbrev pub Query : Type 0 → Type 0
Query A = M Error A

module _ {E : Type 0} where
  abbrev pub pure : {A : Type 0} → A → M E A
  pure a w = (ok a, w)

  abbrev pub raise : {A : Type 0} → E → M E A
  raise e w = (err e, w)

  abbrev pub gets : {A : Type 0} → (World → A) → M E A
  gets f w = (ok (f w), w)

  abbrev pub modify : (World → World) → M E (Unit {0})
  modify f w = (ok tt, f w)

  abbrev pub raise_if : Bool → E → M E (Unit {0})
  raise_if b e w = (if b then err e else ok tt, w)

  -- The rest of a computation, from what its first part gave.
  abbrev pub resume : {A B : Type 0} → (A → M E B) → Result E A × World → Result E B × World
  resume f (ok a, w) = f a w
  resume f (err e, w) = (err e, w)

  infixl 5 ◌>>=◌ ◌>>◌
  abbrev pub ◌>>=◌ : {A B : Type 0} → M E A → (A → M E B) → M E B
  ◌>>=◌ m f w = resume f (m w)

  abbrev pub ◌>>◌ : {A B : Type 0} → M E A → M E B → M E B
  m >> k = m >>= λ _. k

-- Does the next statement fail?
abbrev pub failing : List Bool → Bool
failing [] = false
failing (b ∷ fs) = b

abbrev pub later_faults : List Bool → List Bool
later_faults [] = []
later_faults (b ∷ fs) = fs

-- The round trip to the database that every statement makes, and each begin and commit.
abbrev pub statement : Query (Unit {0})
statement w =
    (if failing w.faults then err db_fault else ok tt, record w { faults = later_faults w.faults })

-- The tables go back to `w`; what was drawn and what failed stays so.
abbrev pub rollback : World → World → World
rollback w w' = record w { draws = w'.draws; faults = w'.faults }

abbrev pub settle : {A : Type 0} → Result Error A × World → World → Result Error A × World
settle (ok a, w') w = (ok a, w')
settle (err e, w') w = (err e, rollback w w')

-- `BeginTx` … `Commit`, with the deferred `Rollback` on every error.
abbrev pub transaction : {A : Type 0} → Query A → Query A
transaction m w = settle ((do statement; a ← m; statement; pure a) w) w

-- `newID`
abbrev pub new_id : Text → Query Text
new_id prefix w = (ok (prefix ++ (b'_' ∷ w.random w.draws)), record w { draws = w.draws + 1 })

-- Nothing fails.
abbrev pub Calm : World → Type 0
Calm w = w.faults ≡ []

-- `SELECT … FROM users WHERE id = $1`
unfoldable pub find_user : Text → List UserRow → Option UserRow
find_user id [] = none
find_user id (u ∷ us) = if text_eq u.id id then some u else find_user id us
