-- ===== src/Database/WhatsApp/Links.antt =====
-- The link codes of internal/database/whatsapp_store.go.
pub mod Verify
pub mod Answers
use be_miawai.Base.{
  ℕ, ◌+◌, ◌*◌, List, [], ◌∷◌, Option, none, some, Bool, true, false, not, ◌&&◌, ◌||◌, Text, codes,
  text_eq, is_blank, ltb, leb, if◌then◌else◌,
}
use be_miawai.Base.Strings.{trim_space}
use be_miawai.Models.{WhatsAppContact, WhatsAppLinkCode}
use be_miawai.Database.World.{
  World, Query, phone_required, already_linked, ok, err, pure, raise, raise_if, gets, modify, ◌>>=◌,
  ◌>>◌, statement, transaction, new_id,
}
use be_miawai.Database.Subscriptions.{second}
use be_miawai.Database.WhatsApp.{
  normalize_phone_number, contact_jid_user, random_numeric_code, pending, allowed, verified,
  expired, locked,
}
use be_miawai.Database.WhatsApp.Contacts.{update_where, any_where, cut_off, link_to}

abbrev pub minute : ℕ
minute = 60 * second

-- The random bytes of `randomNumericCode` are the next text of the world's supply.
abbrev pub draw_code : Query Text
draw_code w = (ok (random_numeric_code (w.random w.draws)), record w { draws = w.draws + 1 })

unfoldable pub create_whatsapp_link_code : Text → Text → Query WhatsAppLinkCode
unfolding any_where
create_whatsapp_link_code user_id raw_phone =
    let phone = normalize_phone_number raw_phone in
    raise_if (is_blank phone) phone_required >> do
      statement
      linked ← gets (λ w.
          any_where (λ c. text_eq c.linked_user_id user_id && text_eq c.allow_status allowed)
            w.wa_contacts)
      raise_if linked already_linked
      code ← draw_code
      id ← new_id (codes "walink")
      now ← gets (λ w. w.now)
      let link : WhatsAppLinkCode = record {
        id = id;
        user_id = user_id;
        phone_number = phone;
        code = code;
        status = pending;
        attempts = 0;
        expires_at = now + 10 * minute;
        matched_contact_jid = [];
      }
      statement
      modify (λ w. record w { wa_links = link ∷ w.wa_links })
      pure link

-- `WHERE phone_number = $1 AND status = 'pending' ORDER BY created_at DESC LIMIT 1`
unfoldable pub latest_pending : Text → List WhatsAppLinkCode → Option WhatsAppLinkCode
latest_pending phone [] = none
latest_pending phone (l ∷ ls) =
    if text_eq l.phone_number phone && text_eq l.status pending
    then some l
    else latest_pending phone ls

-- `UPDATE whatsapp_link_codes SET … WHERE id = $1`
unfoldable pub update_link :
    Text → (WhatsAppLinkCode → WhatsAppLinkCode) → List WhatsAppLinkCode → List WhatsAppLinkCode
update_link id change [] = []
update_link id change (l ∷ ls) =
    (if text_eq l.id id then change l else l) ∷ update_link id change ls

abbrev pub change_link : Text → (WhatsAppLinkCode → WhatsAppLinkCode) → Query (Unit {0})
change_link id change = do
  statement
  modify (λ w. record w { wa_links = update_link id change w.wa_links })

abbrev pub change_contacts :
    (WhatsAppContact → Bool) → (WhatsAppContact → WhatsAppContact) → Query (Unit {0})
change_contacts test change = do
  statement
  modify (λ w. record w { wa_contacts = update_where test change w.wa_contacts })

abbrev pub fail_once : ℕ → WhatsAppLinkCode → WhatsAppLinkCode
fail_once attempts l = record l {
  attempts = attempts;
  status = if leb 3 attempts then locked else pending;
}

-- What `VerifyWhatsAppLinkCode` returns beside its error.
pub record Verification : Type 0 where
  pub user_id : Text
  pub matched : Bool
  pub attempts : ℕ

abbrev pub refused : ℕ → Verification
refused attempts = record { user_id = []; matched = false; attempts = attempts }

-- The code is wrong. A failure of the second statement is ignored by the code, but it aborts the
-- transaction, whose commit then fails.
unfoldable pub reject_code : Text → WhatsAppLinkCode → Query Verification
unfolding update_link update_where
reject_code contact_id link = do
  change_link link.id (fail_once (link.attempts + 1))
  change_contacts (λ c. text_eq c.id contact_id)
      (λ c. record c { verification_attempts = link.attempts + 1 })
  pure (refused (link.attempts + 1))

-- The code is right: the user's other numbers are cut off, and this one is linked.
unfoldable pub accept_code : Text → Text → WhatsAppLinkCode → Query Verification
unfolding update_link update_where
accept_code contact_id jid link = do
  change_link link.id (λ l. record l { status = verified; matched_contact_jid = jid })
  change_contacts (λ c. text_eq c.linked_user_id link.user_id && not (text_eq c.id contact_id))
      cut_off
  change_contacts (λ c. text_eq c.id contact_id) (link_to link.user_id)
  pure (record { user_id = link.user_id; matched = true; attempts = 0 })

-- The failed statement of an expired code is ignored too, and its commit then fails.
unfoldable pub check_code : Text → Text → Text → ℕ → WhatsAppLinkCode → Query Verification
unfolding reject_code accept_code update_link
check_code contact_id jid code now link =
    if ltb link.expires_at now
    then (change_link link.id (λ l. record l { status = expired }) >> pure (refused link.attempts))
    else if not (text_eq code link.code)
    then reject_code contact_id link
    else accept_code contact_id jid link

unfoldable pub verify_whatsapp_link_code : Text → Text → Text → Query Verification
unfolding check_code latest_pending
verify_whatsapp_link_code contact_id jid text =
    let phone = normalize_phone_number (contact_jid_user jid) in
    let code = trim_space text in
    if is_blank phone || is_blank code
    then pure (refused 0)
    else transaction do
      statement
      found ← gets (λ w. latest_pending phone w.wa_links)
      now ← gets (λ w. w.now)
      elim found [ none ↦ pure (refused 0) | some link ↦ check_code contact_id jid code now link ]

-- `WHERE code = $1 AND status = 'pending' AND expires_at > NOW() … LIMIT 1`
unfoldable pub phone_of_code : Text → ℕ → List WhatsAppLinkCode → Option Text
phone_of_code code now [] = none
phone_of_code code now (l ∷ ls) =
    if text_eq l.code code && text_eq l.status pending && ltb now l.expires_at
    then some l.phone_number
    else phone_of_code code now ls

abbrev pub differs : Text → Option Text → Bool
differs phone none = false
differs phone (some matched) = not (text_eq (normalize_phone_number matched) phone)

unfoldable pub link_code_belongs_to_different_contact : Text → Text → Query Bool
unfolding phone_of_code
link_code_belongs_to_different_contact jid text =
    let phone = normalize_phone_number (contact_jid_user jid) in
    let code = trim_space text in
    if is_blank phone || is_blank code
    then pure false
    else do statement; gets (λ w. differs phone (phone_of_code code w.now w.wa_links))
