-- ===== src/Database/WhatsApp/Contacts.antt =====
-- The contacts of internal/database/whatsapp_store.go.
pub mod Exclusive
use be_miawai.Base.{
  ℕ, List, [], ◌∷◌, ◌++◌, Option, none, some, Bool, true, false, not, ◌&&◌, ◌||◌, Text, codes,
  text_eq, is_blank, if◌then◌else◌,
}
use be_miawai.Base.Strings.{trim_space}
use be_miawai.Models.{WhatsAppAccount, WhatsAppContact}
use be_miawai.Database.World.{
  World, Query, no_rows, contact_jid_required, phone_required, ok, err, pure, raise, raise_if, gets,
  modify, ◌>>=◌, ◌>>◌, statement, transaction, new_id,
}
use be_miawai.Database.Users.{or_no_rows, is_some, coalesce}
use be_miawai.Database.WhatsApp.{normalize_phone_number, central_bot, pending, allowed, blocked}
use be_miawai.Database.WhatsApp.Accounts.{get_whatsapp_account_by_id}

-- `WHERE whatsapp_account_id = $1 AND contact_jid = $2`
unfoldable pub find_contact : Text → Text → List WhatsAppContact → Option WhatsAppContact
find_contact account_id jid [] = none
find_contact account_id jid (c ∷ cs) =
    if text_eq c.whatsapp_account_id account_id && text_eq c.contact_jid jid
    then some c
    else find_contact account_id jid cs

-- A change of every row that a WHERE clause picks.
unfoldable pub update_where :
    (WhatsAppContact → Bool)
    → (WhatsAppContact → WhatsAppContact)
    → List WhatsAppContact
    → List WhatsAppContact
update_where test change [] = []
update_where test change (c ∷ cs) = (if test c then change c else c) ∷ update_where test change cs

unfoldable pub any_where : (WhatsAppContact → Bool) → List WhatsAppContact → Bool
any_where test [] = false
any_where test (c ∷ cs) = test c || any_where test cs

-- `SET allow_status = 'blocked', linked_user_id = NULL, …`
abbrev pub cut_off : WhatsAppContact → WhatsAppContact
cut_off c = record c {
  allow_status = blocked;
  linked_user_id = [];
  default_conversation_id = [];
  verification_attempts = 0;
}

-- `SET linked_user_id = $2, allow_status = 'allowed', verification_attempts = 0`
abbrev pub link_to : Text → WhatsAppContact → WhatsAppContact
link_to user_id c = record c {
  linked_user_id = user_id;
  allow_status = allowed;
  verification_attempts = 0;
}

abbrev pub new_contact : Text → WhatsAppAccount → Text → Text → Text → WhatsAppContact
new_contact id account jid display_name status = record {
  id = id;
  whatsapp_account_id = account.id;
  owner_user_id = account.owner_user_id;
  contact_jid = jid;
  display_name = display_name;
  linked_user_id = [];
  default_conversation_id = [];
  allow_status = status;
  verification_attempts = 0;
}

abbrev pub is_contact : Text → Text → WhatsAppContact → Bool
is_contact account_id jid c = text_eq c.whatsapp_account_id account_id && text_eq c.contact_jid jid

-- `INSERT … ON CONFLICT (whatsapp_account_id, contact_jid) DO UPDATE`
unfoldable pub upsert_contact :
    WhatsAppContact
    → (WhatsAppContact → WhatsAppContact)
    → List WhatsAppContact
    → List WhatsAppContact
upsert_contact c change cs =
    if any_where (is_contact c.whatsapp_account_id c.contact_jid) cs
    then update_where (is_contact c.whatsapp_account_id c.contact_jid) change cs
    else c ∷ cs

abbrev pub rename : Text → WhatsAppContact → WhatsAppContact
rename name c = record c { display_name = coalesce name c.display_name }

-- The account, the contact, and the user whom a message from the contact speaks for.
unfoldable pub resolve_whatsapp_contact :
    Text → Text → Text → Query (WhatsAppAccount × WhatsAppContact × Text)
unfolding upsert_contact find_contact get_whatsapp_account_by_id update_where any_where
resolve_whatsapp_contact account_id raw_jid display_name =
    let jid = trim_space raw_jid in
    raise_if (is_blank jid) contact_jid_required
    >> transaction do
      account ← get_whatsapp_account_by_id account_id
      id ← new_id (codes "wact")
      statement
      modify (λ w. record w {
        wa_contacts =
            upsert_contact (new_contact id account jid (trim_space display_name) pending)
              (rename (trim_space display_name)) w.wa_contacts;
      })
      statement
      contact ← or_no_rows (← gets (λ w. find_contact account.id jid w.wa_contacts))
      pure (
        account,
        contact,
        (if text_eq account.mode central_bot && not (is_blank contact.linked_user_id)
            then contact.linked_user_id
            else account.owner_user_id),
      )

abbrev pub allow : Text → WhatsAppContact → WhatsAppContact
allow name c = record c {
  allow_status = allowed;
  display_name = coalesce name c.display_name;
  verification_attempts = 0;
}

unfoldable pub allow_whatsapp_contact : WhatsAppAccount → Text → Query WhatsAppContact
unfolding upsert_contact find_contact update_where any_where
allow_whatsapp_contact account raw_phone =
    let phone = normalize_phone_number raw_phone in
    let jid = phone ++ codes "@s.whatsapp.net" in
    raise_if (is_blank phone) phone_required >> do
      id ← new_id (codes "wact")
      statement
      modify (λ w. record w {
        wa_contacts =
            upsert_contact (new_contact id account jid phone allowed) (allow phone) w.wa_contacts;
      })
      statement
      or_no_rows (← gets (λ w. find_contact account.id jid w.wa_contacts))

-- An UPDATE that cuts contacts off, and its `RowsAffected` test.
abbrev pub cut_where : (WhatsAppContact → Bool) → Query (Unit {0})
cut_where test = do
  statement
  found ← gets (λ w. any_where test w.wa_contacts)
  modify (λ w. record w { wa_contacts = update_where test cut_off w.wa_contacts })
  raise_if (not found) no_rows

unfoldable pub remove_allowed_whatsapp_contact : Text → Text → Query (Unit {0})
unfolding update_where any_where
remove_allowed_whatsapp_contact account_id contact_id =
    cut_where (λ c. text_eq c.id contact_id && text_eq c.whatsapp_account_id account_id)

unfoldable pub revoke_linked_whatsapp_contact : Text → Text → Query (Unit {0})
unfolding update_where any_where
revoke_linked_whatsapp_contact user_id contact_id =
    cut_where (λ c. text_eq c.id contact_id && text_eq c.linked_user_id user_id)
