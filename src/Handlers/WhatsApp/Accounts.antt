-- ===== src/Handlers/WhatsApp/Accounts.antt =====
-- The accounts, contacts and link codes in internal/handlers/whatsapp.go, and the calls of the
-- WhatsApp service.
use be_miawai.Base.{ℕ, Option, Bool, not, ◌&&◌, ◌||◌, Text, codes, text_eq, is_blank, if◌then◌else◌}
use be_miawai.Base.Strings.{trim_space, trim_prefix}
use be_miawai.Models.{User, WhatsAppAccount, WhatsAppContact, WhatsAppLinkCode}
use be_miawai.Database.World.{World, Result, ok, err, ◌>>=◌, ◌>>◌}
use be_miawai.Database.WhatsApp.Accounts.{
  create_whatsapp_account, get_or_create_central_whatsapp_account, revoke_whatsapp_account,
  update_whatsapp_account_policy, get_whatsapp_account_by_id, upsert_whatsapp_account_status,
}
use be_miawai.Database.WhatsApp.Contacts.{
  allow_whatsapp_contact, remove_allowed_whatsapp_contact, revoke_linked_whatsapp_contact,
}
use be_miawai.Database.WhatsApp.Links.{create_whatsapp_link_code}
use be_miawai.Handlers.Reply.{Handler, Reply, reply, deny_if, required, from_store, missing_or}
use be_miawai.Handlers.Access.{has_access, admin_permission}
use be_miawai.Handlers.Accounts.{equal_fold}
use be_miawai.Handlers.Settings.{ProviderConfig}
use be_miawai.Handlers.Limits.{LimitConfig}
use be_miawai.Handlers.Chat.{ChatService}
use be_miawai.Handlers.WhatsApp.{
  WhatsAppInboundInput, WhatsAppInboundResult, InboundError, bad_request, not_found,
  handle_whatsapp_inbound,
}

abbrev pub whatsapp_read : Text
whatsapp_read = codes "whatsapp:read"

abbrev pub whatsapp_write : Text
whatsapp_write = codes "whatsapp:write"

-- The body of `createWhatsAppAccount`, blank where it is absent.
pub record AccountBody : Type 0 where
  pub mode : Text
  pub display_name : Text

unfoldable pub create_account : User → Option AccountBody → Handler WhatsAppAccount
unfolding equal_fold
create_account user decoded = do
  deny_if (not (has_access user whatsapp_write)) 403
      "whatsapp connection is not allowed for this role"
  body ← required decoded 400 "invalid json body"
  from_store (λ e. reply 500 "failed to create whatsapp account")
      (if equal_fold (trim_space body.mode) (codes "central_bot")
          && has_access user admin_permission
        then get_or_create_central_whatsapp_account user.id
        else create_whatsapp_account user.id body.mode body.display_name)

unfoldable pub delete_account : User → Text → Handler (Unit {0})
delete_account user id = do
  deny_if (not (has_access user whatsapp_write)) 403 "whatsapp unlink is not allowed for this role"
  from_store
      (missing_or (reply 404 "whatsapp account not found")
        (reply 500 "failed to revoke whatsapp account"))
      (revoke_whatsapp_account user.id id)

unfoldable pub update_account : User → Text → Option Text → Handler WhatsAppAccount
update_account user id decoded = do
  deny_if (not (has_access user whatsapp_write)) 403
      "whatsapp settings are not allowed for this role"
  access_policy ← required decoded 400 "invalid json body"
  from_store
      (missing_or (reply 404 "whatsapp account not found")
        (reply 500 "failed to update whatsapp account"))
      (update_whatsapp_account_policy user.id id access_policy)

-- The runner's refresh is a parameter: absent, or a call that may fail.
unfoldable pub refresh_pairing : Option (Text → Bool) → User → Text → Handler WhatsAppAccount
refresh_pairing runner user raw_id = do
  deny_if (not (has_access user whatsapp_write)) 403
      "whatsapp pairing refresh is not allowed for this role"
  account ←
      from_store
        (missing_or (reply 404 "whatsapp account not found")
          (reply 500 "failed to load whatsapp account"))
        (get_whatsapp_account_by_id (trim_space raw_id))
  deny_if (not (text_eq account.owner_user_id user.id) && not (has_access user admin_permission))
      403 "whatsapp account does not belong to this user"
  refresh ← required runner 503 "whatsapp runner is not available"
  deny_if (not (refresh account.id)) 503 "failed to refresh whatsapp pairing"
  from_store (λ e. reply 500 "failed to refresh whatsapp account")
      (get_whatsapp_account_by_id account.id)

-- The store's error is answered as it is; its text is left out.
unfoldable pub create_link_code : User → Option Text → Handler WhatsAppLinkCode
create_link_code user decoded = do
  deny_if (not (has_access user whatsapp_write)) 403 "whatsapp linking is not allowed for this role"
  phone_number ← required decoded 400 "invalid json body"
  from_store (λ e. reply 400 "") (create_whatsapp_link_code user.id phone_number)

unfoldable pub revoke_linked_contact : User → Text → Handler (Unit {0})
revoke_linked_contact user id = do
  deny_if (not (has_access user whatsapp_write)) 403 "whatsapp unlink is not allowed for this role"
  from_store
      (missing_or (reply 404 "linked whatsapp number not found")
        (reply 500 "failed to revoke whatsapp number"))
      (revoke_linked_whatsapp_contact user.id id)

-- Who may change the list of the central bot's contacts.
abbrev pub may_administer : User → Bool
may_administer user = has_access user admin_permission && has_access user whatsapp_write

unfoldable pub admin_allow_contact : User → Option Text → Handler WhatsAppContact
admin_allow_contact user decoded = do
  deny_if (not (may_administer user)) 403 "admin whatsapp write access is not allowed for this role"
  phone_number ← required decoded 400 "invalid json body"
  account ←
      from_store (λ e. reply 500 "failed to load central whatsapp account")
        (get_or_create_central_whatsapp_account user.id)
  from_store (λ e. reply 400 "") (allow_whatsapp_contact account phone_number)

unfoldable pub admin_remove_allowed_contact : User → Text → Handler (Unit {0})
admin_remove_allowed_contact user id = do
  deny_if (not (may_administer user)) 403 "admin whatsapp write access is not allowed for this role"
  account ←
      from_store (λ e. reply 500 "failed to load central whatsapp account")
        (get_or_create_central_whatsapp_account user.id)
  from_store
      (missing_or (reply 404 "allowed whatsapp contact not found")
        (reply 500 "failed to remove allowed whatsapp contact"))
      (remove_allowed_whatsapp_contact account.id id)

-- `requireWhatsAppService`, on the configured token and the Authorization header.
unfoldable pub require_whatsapp_service : Text → Text → Handler (Unit {0})
require_whatsapp_service configured header =
    let expected = trim_space configured in
    let token = trim_space (trim_prefix (trim_space header) (codes "Bearer ")) in
    deny_if (is_blank expected) 503 "whatsapp internal token is not configured"
    >> deny_if (is_blank token || not (text_eq token expected)) 401 "invalid whatsapp service token"

-- The body of `whatsAppAccountStatus`.
pub record StatusBody : Type 0 where
  pub status : Text
  pub phone_jid : Text
  pub display_name : Text
  pub qr_code : Text

unfoldable pub account_status : Text → Text → Text → Option StatusBody → Handler WhatsAppAccount
unfolding require_whatsapp_service
account_status configured header id decoded = do
  require_whatsapp_service configured header
  body ← required decoded 400 "invalid json body"
  from_store
      (missing_or (reply 404 "whatsapp account not found")
        (reply 500 "failed to update whatsapp account"))
      (upsert_whatsapp_account_status id body.status body.phone_jid body.display_name body.qr_code)

abbrev pub inbound_reply : InboundError → Reply
inbound_reply bad_request = reply 400 "accountId, contactJid, and text are required"
inbound_reply not_found = reply 404 "whatsapp account not found"
inbound_reply _ = reply 500 ""

abbrev pub replying :
    Result InboundError WhatsAppInboundResult × World → Result Reply WhatsAppInboundResult × World
replying (ok r, w) = (ok r, w)
replying (err e, w) = (err (inbound_reply e), w)

-- `whatsAppInbound`; a message of the service carries no images.
unfoldable pub whatsapp_inbound :
    ChatService
    → ProviderConfig
    → LimitConfig
    → (Text → Option ℕ)
    → Text
    → Text
    → Option WhatsAppInboundInput
    → Handler WhatsAppInboundResult
unfolding require_whatsapp_service
whatsapp_inbound service providers limits parse_time configured header decoded = do
  require_whatsapp_service configured header
  body ← required decoded 400 "invalid json body"
  λ w.
      replying
        (handle_whatsapp_inbound service providers limits parse_time (record body { images = 0 }) w)
