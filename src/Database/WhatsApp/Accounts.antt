-- ===== src/Database/WhatsApp/Accounts.antt =====
-- The accounts and the events of internal/database/whatsapp_store.go.
use be_miawai.Base.{
  ◌++◌, List, [], ◌∷◌, Option, none, some, Bool, true, false, not, ◌&&◌, ◌||◌, Text, codes, text_eq,
  is_blank, if◌then◌else◌,
}
use be_miawai.Base.Strings.{trim_space}
use be_miawai.Models.{WhatsAppAccount, WhatsAppEvent}
use be_miawai.Database.World.{
  Query, no_rows, owner_required, pure, raise_if, gets, modify, ◌>>=◌, ◌>>◌, statement, new_id,
}
use be_miawai.Database.Users.{or_no_rows, coalesce}
use be_miawai.Database.WhatsApp.{
  normalize_whatsapp_mode, normalize_whatsapp_status, normalize_whatsapp_access_policy,
  normalize_whatsapp_event_direction, central_bot, revoked, pending_qr, allow_all, linked_only,
}

-- `status <> 'revoked'`
abbrev pub is_kept : WhatsAppAccount → Bool
is_kept a = not (text_eq a.status revoked)

unfoldable pub find_account : Text → List WhatsAppAccount → Option WhatsAppAccount
find_account id [] = none
find_account id (a ∷ accounts) =
    if text_eq a.id id && is_kept a then some a else find_account id accounts

-- The new account of `CreateWhatsAppAccount`; `access_policy` is the column's default.
unfoldable pub create_whatsapp_account : Text → Text → Text → Query WhatsAppAccount
create_whatsapp_account user_id mode display_name = do
  id ← new_id (codes "waacc")
  session_ref ← new_id (codes "wasess")
  let trimmed = trim_space display_name
  let account : WhatsAppAccount = record {
    id = id;
    owner_user_id = user_id;
    mode = normalize_whatsapp_mode mode;
    display_name = if is_blank trimmed then codes "WhatsApp" else trimmed;
    phone_jid = [];
    status = pending_qr;
    session_ref = session_ref;
    access_policy = allow_all;
    qr_code = [];
  }
  statement
  modify (λ w. record w { wa_accounts = account ∷ w.wa_accounts })
  pure account

unfoldable pub get_whatsapp_account_by_id : Text → Query WhatsAppAccount
get_whatsapp_account_by_id id = do
  statement
  or_no_rows (← gets (λ w. find_account id w.wa_accounts))

-- `WHERE id = $1 AND owner_user_id = $2 AND status <> 'revoked'`
unfoldable pub owns_account : Text → Text → List WhatsAppAccount → Bool
owns_account owner id [] = false
owns_account owner id (a ∷ accounts) =
    (text_eq a.id id && text_eq a.owner_user_id owner && is_kept a)
    || owns_account owner id accounts

-- The rows that an UPDATE picks, changed, and the rows that it leaves.
unfoldable pub picked :
    (WhatsAppAccount → Bool)
    → (WhatsAppAccount → WhatsAppAccount)
    → List WhatsAppAccount
    → List WhatsAppAccount
picked test change [] = []
picked test change (a ∷ accounts) =
    let rest = picked test change accounts in if test a then change a ∷ rest else rest

unfoldable pub left_alone : (WhatsAppAccount → Bool) → List WhatsAppAccount → List WhatsAppAccount
left_alone test [] = []
left_alone test (a ∷ accounts) =
    let rest = left_alone test accounts in if test a then rest else a ∷ rest

-- An UPDATE that sets `updated_at` too: what it changes is the last updated, and comes first.
unfoldable pub touch :
    (WhatsAppAccount → Bool)
    → (WhatsAppAccount → WhatsAppAccount)
    → List WhatsAppAccount
    → List WhatsAppAccount
unfolding picked left_alone
touch test change accounts = picked test change accounts ++ left_alone test accounts

unfoldable pub set_policy : Text → Text → Text → List WhatsAppAccount → List WhatsAppAccount
unfolding touch
set_policy owner id policy accounts =
    touch (λ a. text_eq a.id id && text_eq a.owner_user_id owner && is_kept a)
      (λ a. record a { access_policy = policy }) accounts

unfoldable pub update_whatsapp_account_policy : Text → Text → Text → Query WhatsAppAccount
unfolding get_whatsapp_account_by_id
update_whatsapp_account_policy user_id id access_policy = do
  statement
  found ← gets (λ w. owns_account user_id id w.wa_accounts)
  modify (λ w. record w {
    wa_accounts =
        set_policy user_id id (normalize_whatsapp_access_policy access_policy) w.wa_accounts;
  })
  raise_if (not found) no_rows
  get_whatsapp_account_by_id id

-- `WHERE owner_user_id = $1 AND mode = 'central_bot' AND status <> 'revoked' … LIMIT 1`
unfoldable pub central_account : Text → List WhatsAppAccount → Option WhatsAppAccount
central_account owner [] = none
central_account owner (a ∷ accounts) =
    if text_eq a.owner_user_id owner && text_eq a.mode central_bot && is_kept a
    then some a
    else central_account owner accounts

unfoldable pub get_or_create_central_whatsapp_account : Text → Query WhatsAppAccount
unfolding create_whatsapp_account update_whatsapp_account_policy
get_or_create_central_whatsapp_account raw_owner =
    let owner = trim_space raw_owner in
    raise_if (is_blank owner) owner_required >> do
      statement
      existing ← gets (λ w. central_account owner w.wa_accounts)
      elim existing [
        | some account ↦ pure account
        | none ↦ do
          account ← create_whatsapp_account owner central_bot (codes "Miaw AI WhatsApp")
          update_whatsapp_account_policy owner account.id linked_only
      ]

unfoldable pub set_revoked : Text → Text → List WhatsAppAccount → List WhatsAppAccount
unfolding touch
set_revoked owner id accounts =
    touch (λ a. text_eq a.id id && text_eq a.owner_user_id owner)
      (λ a. record a { status = revoked }) accounts

unfoldable pub has_account : Text → Text → List WhatsAppAccount → Bool
has_account owner id [] = false
has_account owner id (a ∷ accounts) =
    (text_eq a.id id && text_eq a.owner_user_id owner) || has_account owner id accounts

unfoldable pub revoke_whatsapp_account : Text → Text → Query (Unit {0})
revoke_whatsapp_account user_id id = do
  statement
  found ← gets (λ w. has_account user_id id w.wa_accounts)
  modify (λ w. record w { wa_accounts = set_revoked user_id id w.wa_accounts })
  raise_if (not found) no_rows

-- `UPDATE whatsapp_accounts SET status = $2, … WHERE id = $1 AND status <> 'revoked'`
unfoldable pub set_account_status :
    Text → Text → Text → Text → Text → List WhatsAppAccount → List WhatsAppAccount
unfolding touch
set_account_status id status phone name qr accounts =
    touch (λ a. text_eq a.id id && is_kept a)
      (λ a. record a {
        status = status;
        phone_jid = coalesce phone a.phone_jid;
        display_name = coalesce name a.display_name;
        qr_code = qr;
      })
      accounts

unfoldable pub upsert_whatsapp_account_status :
    Text → Text → Text → Text → Text → Query WhatsAppAccount
unfolding get_whatsapp_account_by_id
upsert_whatsapp_account_status id status phone_jid display_name qr_code = do
  statement
  modify (λ w. record w {
    wa_accounts =
        set_account_status id (normalize_whatsapp_status status) (trim_space phone_jid)
          (trim_space display_name) (trim_space qr_code) w.wa_accounts;
  })
  get_whatsapp_account_by_id id

unfoldable pub create_whatsapp_event : WhatsAppEvent → Query WhatsAppEvent
create_whatsapp_event e = do
  id ← elim (is_blank (trim_space e.id)) [
    | true ↦ new_id (codes "waevt")
    | false ↦ pure (trim_space e.id)
  ]
  let event : WhatsAppEvent = record {
    id = id;
    whatsapp_account_id = trim_space e.whatsapp_account_id;
    contact_jid = trim_space e.contact_jid;
    sender_jid = trim_space e.sender_jid;
    direction = normalize_whatsapp_event_direction e.direction;
    message_id = trim_space e.message_id;
    conversation_id = trim_space e.conversation_id;
    text = trim_space e.text;
  }
  statement
  modify (λ w. record w { wa_events = event ∷ w.wa_events })
  pure event
