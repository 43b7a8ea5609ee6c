-- ===== src/Database/WhatsApp/Links/Verify.antt =====
-- What `VerifyWhatsAppLinkCode` of internal/database/whatsapp_store.go guarantees.
use be_miawai.Base.{
  ◌+◌, ap, suc, map, ◌≢◌, ◌≡◌, refl, ℕ, ◌<◌, List, [], ◌∷◌, true, Text, text_eq, some, arith,
  text_eq_iff, ◌≤◌, Option-cases, inl, inr,
}
use be_miawai.Base.Strings.{trim_space}
use be_miawai.Models.{WhatsAppLinkCode}
use be_miawai.Database.World.{World, ok}
use be_miawai.Database.WhatsApp.{
  normalize_phone_number, contact_jid_user, pending, verified, expired, is_digit,
  random_numeric_code, digit_of,
}
use be_miawai.Database.WhatsApp.Links.{
  verify_whatsapp_link_code, latest_pending, update_link, check_code, accept_code, reject_code,
  fail_once, Verification, create_whatsapp_link_code,
}
use be_miawai.Database.WhatsApp.Contacts.Exclusive.{
  IsExclusive, HasUniqueIds, relink-IsExclusive, relink-HasUniqueIds, update_where-HasUniqueIds,
  update_where-IsExclusive,
}
use be_miawai.Base.Lists.{All, length}

-- The phone number of a contact.
abbrev pub phone_of : Text → Text
phone_of jid = normalize_phone_number (contact_jid_user jid)

-- A link code that a contact may redeem.
abbrev pub Redeems : Text → Text → World → Verification → WhatsAppLinkCode → Type 0
Redeems jid text w v link =
    (latest_pending (phone_of jid) w.wa_links ≡ some link)
    × (trim_space text ≡ link.code)
    × (w.now ≤ link.expires_at)
    × (v.user_id ≡ link.user_id)

verify-Redeems :
    (contact_id jid text : Text) (w : World) (v : Verification) (link : WhatsAppLinkCode)
    → latest_pending (phone_of jid) w.wa_links ≡ some link
    → (verify_whatsapp_link_code contact_id jid text w).0 ≡ ok v
    → v.matched ≡ true
    → Redeems jid text w v link
unfolding verify_whatsapp_link_code check_code accept_code reject_code
verify-Redeems contact_id jid text w v link e h m =
    (e, ground (arith, text_eq_iff (trim_space text) link.code), ground arith, ground arith)

-- A phone number is linked only by a right code: where `VerifyWhatsAppLinkCode` reports a match,
-- whatever statements fail, the text it got, trimmed, is the code of the newest pending link code
-- of the contact's phone number, that code has not expired, and the user reported is the one for
-- whom it was drawn.
pub verify_sound :
    (contact_id jid text : Text) (w : World) (v : Verification)
    → (verify_whatsapp_link_code contact_id jid text w).0 ≡ ok v
    → v.matched ≡ true
    → (link : WhatsAppLinkCode) × Redeems jid text w v link
unfolding verify_whatsapp_link_code
verify_sound contact_id jid text w v h m =
    elim (Option-cases (latest_pending (phone_of jid) w.wa_links)) [
      | inl e ↦ ground arith
      | inr (link, e) ↦ (link, verify-Redeems contact_id jid text w v link e h m)
    ]

-- Every code that can still be redeemed has been missed fewer than three times.
abbrev pub IsGuarded : List WhatsAppLinkCode → Type 0
IsGuarded [] = Unit
IsGuarded (l ∷ ls) = (l.status ≡ pending → l.attempts < 3) × IsGuarded ls

-- `VerifyWhatsAppLinkCode` keeps the contacts' ids distinct and keeps every user linked to one
-- contact at most, whatever statements fail.
pub verify-IsExclusive :
    (contact_id jid text : Text) (w : World)
    → HasUniqueIds w.wa_contacts
    → IsExclusive w.wa_contacts
    → HasUniqueIds (verify_whatsapp_link_code contact_id jid text w).1.wa_contacts
      × IsExclusive (verify_whatsapp_link_code contact_id jid text w).1.wa_contacts
unfolding verify_whatsapp_link_code check_code accept_code reject_code
verify-IsExclusive contact_id jid text w u e =
    elim (Option-cases (latest_pending (phone_of jid) w.wa_links)) [
      | inl n ↦ (ground arith, ground arith)
      | inr (link, n) ↦ (
        ground (
          arith,
          relink-HasUniqueIds link.user_id contact_id w.wa_contacts u,
          update_where-HasUniqueIds (λ c. text_eq c.id contact_id)
              (λ c. record c { verification_attempts = link.attempts + 1 }) w.wa_contacts
              (λ c. refl) u,
        ),
        ground (
          arith,
          relink-IsExclusive link.user_id contact_id w.wa_contacts u e,
          update_where-IsExclusive (λ c. text_eq c.id contact_id)
              (λ c. record c { verification_attempts = link.attempts + 1 }) w.wa_contacts
              (λ c. inr refl) e,
        ),
      )
    ]

update_link-IsGuarded :
    (id : Text) (change : WhatsAppLinkCode → WhatsAppLinkCode) (ls : List WhatsAppLinkCode)
    → ((l : WhatsAppLinkCode) → (change l).status ≡ pending → (change l).attempts < 3)
    → IsGuarded ls
    → IsGuarded (update_link id change ls)
unfolding update_link
update_link-IsGuarded id change [] k g = tt
update_link-IsGuarded id change (l ∷ ls) k (h, g) =
    (ground (arith, h, k l), update_link-IsGuarded id change ls k g)

-- A code that can still be redeemed has been missed fewer than three times:
-- `VerifyWhatsAppLinkCode` keeps this true of all link codes, whatever statements fail.
pub verify-IsGuarded :
    (contact_id jid text : Text) (w : World)
    → IsGuarded w.wa_links
    → IsGuarded (verify_whatsapp_link_code contact_id jid text w).1.wa_links
unfolding verify_whatsapp_link_code check_code accept_code reject_code
verify-IsGuarded contact_id jid text w g =
    elim (Option-cases (latest_pending (phone_of jid) w.wa_links)) [
      | inl n ↦ ground arith
      | inr (link, n) ↦ ground (
        arith,
        update_link-IsGuarded link.id (λ l. record l { status = expired }) w.wa_links
            (λ l. ground arith) g,
        update_link-IsGuarded link.id (fail_once (link.attempts + 1)) w.wa_links (λ l. ground arith)
            g,
        update_link-IsGuarded link.id
            (λ l. record l { status = verified; matched_contact_jid = jid }) w.wa_links
            (λ l. ground arith) g,
      )
    ]

-- A new code has not been missed at all.
pub create_whatsapp_link_code-IsGuarded :
    (user_id phone : Text) (w : World)
    → IsGuarded w.wa_links
    → IsGuarded (create_whatsapp_link_code user_id phone w).1.wa_links
unfolding create_whatsapp_link_code
create_whatsapp_link_code-IsGuarded user_id phone w g = ground arith

-- The code has the form that `randomNumericCode` promises: digits, the first of which is not 0.
abbrev pub IsCode : Text → Type 0
IsCode [] = Unit
IsCode (c ∷ s) = (is_digit c ≡ true) × (c ≢ b'0') × All (λ d. is_digit d ≡ true) s

digits : (bs : List ℕ) → All (λ d. is_digit d ≡ true) (map digit_of bs)
digits [] = tt
digits (b ∷ bs) = (ground arith, digits bs)

length-digits : (bs : List ℕ) → length (map digit_of bs) ≡ length bs
length-digits [] = refl
length-digits (b ∷ bs) = ap suc (length-digits bs)

-- On every sequence of random bytes, `randomNumericCode` gives as many characters as there are
-- bytes, all of them digits, the first of which is not 0.
pub random_numeric_code-IsCode :
    (bs : List ℕ) → IsCode (random_numeric_code bs) × (length (random_numeric_code bs) ≡ length bs)
unfolding random_numeric_code
random_numeric_code-IsCode [] = (tt, refl)
random_numeric_code-IsCode (b ∷ bs) =
    ((ground arith, ground arith, digits bs), ap suc (length-digits bs))
