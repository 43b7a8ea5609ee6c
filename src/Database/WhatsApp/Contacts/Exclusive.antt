-- ===== src/Database/WhatsApp/Contacts/Exclusive.antt =====
-- Whom a contact speaks for: the invariant of internal/database/whatsapp_store.go that no user has
-- two linked numbers.
use be_miawai.Base.{
  ◌≡◌, refl, List, [], ◌∷◌, Bool, false, not, ◌&&◌, Text, text_eq, is_blank, text_eq_iff, arith,
  ◌||◌, ◌⊎◌, inl, Option-cases, codes, ◌++◌, inr, Bool-cases,
}
use be_miawai.Models.{WhatsAppContact, WhatsAppAccount}
use be_miawai.Database.WhatsApp.Contacts.{
  rename, is_contact, update_where, cut_off, link_to, upsert_contact, resolve_whatsapp_contact,
  allow_whatsapp_contact, remove_allowed_whatsapp_contact, any_where, new_contact, allow,
}
use be_miawai.Database.World.{World}
use be_miawai.Database.WhatsApp.Accounts.{get_whatsapp_account_by_id, find_account}
use be_miawai.Database.WhatsApp.{normalize_phone_number, allowed, pending}
use be_miawai.Base.Strings.{trim_space}

-- Is a contact linked to the user?
unfoldable pub linked_in : Text → List WhatsAppContact → Bool
linked_in user_id [] = false
linked_in user_id (c ∷ cs) = text_eq c.linked_user_id user_id || linked_in user_id cs

unfoldable pub has_id : Text → List WhatsAppContact → Bool
has_id id [] = false
has_id id (c ∷ cs) = text_eq c.id id || has_id id cs

-- A user is linked to one contact at most.
abbrev pub IsExclusive : List WhatsAppContact → Type 0
IsExclusive [] = Unit
IsExclusive (c ∷ cs) =
    (is_blank c.linked_user_id ≡ false → linked_in c.linked_user_id cs ≡ false) × IsExclusive cs

-- The primary key of `whatsapp_contacts`.
abbrev pub HasUniqueIds : List WhatsAppContact → Type 0
HasUniqueIds [] = Unit
HasUniqueIds (c ∷ cs) = (has_id c.id cs ≡ false) × HasUniqueIds cs

-- The two updates that accept a code.
abbrev pub relink : Text → Text → List WhatsAppContact → List WhatsAppContact
relink user_id id cs =
    update_where (λ c. text_eq c.id id) (link_to user_id)
      (update_where (λ c. text_eq c.linked_user_id user_id && not (text_eq c.id id)) cut_off cs)

linked_in-relink_other :
    (v user_id id : Text) (cs : List WhatsAppContact)
    → text_eq user_id v ≡ false
    → is_blank v ≡ false
    → linked_in v cs ≡ false
    → linked_in v (relink user_id id cs) ≡ false
unfolding linked_in update_where
linked_in-relink_other v user_id id [] d b h = refl
linked_in-relink_other [] user_id id (c ∷ cs) d b h = cc
linked_in-relink_other (x ∷ v) user_id id (c ∷ cs) d b h =
    ground (arith, text_eq_iff [] (x ∷ v), linked_in-relink_other (x ∷ v) user_id id cs d b)

linked_in-relink_self :
    (user_id id : Text) (cs : List WhatsAppContact)
    → is_blank user_id ≡ false
    → has_id id cs ≡ false
    → linked_in user_id (relink user_id id cs) ≡ false
unfolding linked_in has_id update_where
linked_in-relink_self user_id id [] b h = refl
linked_in-relink_self [] id (c ∷ cs) b h = cc
linked_in-relink_self (x ∷ u) id (c ∷ cs) b h =
    ground (arith, text_eq_iff [] (x ∷ u), linked_in-relink_self (x ∷ u) id cs b)

pub relink-IsExclusive :
    (user_id id : Text) (cs : List WhatsAppContact)
    → HasUniqueIds cs
    → IsExclusive cs
    → IsExclusive (relink user_id id cs)
unfolding linked_in has_id update_where
relink-IsExclusive user_id id [] u e = tt
relink-IsExclusive user_id id (c ∷ cs) (n, u) (h, e) = (
  λ b. ground (
    arith,
    linked_in-relink_other c.linked_user_id user_id id cs,
    linked_in-relink_self user_id id cs,
    text_eq_iff c.id id,
    text_eq_iff c.linked_user_id user_id,
    text_eq_iff user_id c.linked_user_id,
    b,
  ),
  relink-IsExclusive user_id id cs u e,
)

has_id-update_where :
    (id : Text) (test : WhatsAppContact → Bool) (change : WhatsAppContact → WhatsAppContact)
    (cs : List WhatsAppContact)
    → ((c : WhatsAppContact) → (change c).id ≡ c.id)
    → has_id id (update_where test change cs) ≡ has_id id cs
unfolding has_id update_where
has_id-update_where id test change [] k = refl
has_id-update_where id test change (c ∷ cs) k =
    ground (arith, k c, has_id-update_where id test change cs k)

-- An update that leaves the primary keys alone keeps them distinct.
pub update_where-HasUniqueIds :
    (test : WhatsAppContact → Bool) (change : WhatsAppContact → WhatsAppContact)
    (cs : List WhatsAppContact)
    → ((c : WhatsAppContact) → (change c).id ≡ c.id)
    → HasUniqueIds cs
    → HasUniqueIds (update_where test change cs)
unfolding has_id update_where
update_where-HasUniqueIds test change [] k u = tt
update_where-HasUniqueIds test change (c ∷ cs) k (n, u) = (
  ground (arith, k c, has_id-update_where c.id test change cs k, n),
  update_where-HasUniqueIds test change cs k u,
)

pub relink-HasUniqueIds :
    (user_id id : Text) (cs : List WhatsAppContact)
    → HasUniqueIds cs
    → HasUniqueIds (relink user_id id cs)
relink-HasUniqueIds user_id id cs u =
    update_where-HasUniqueIds (λ c. text_eq c.id id) (link_to user_id)
      (update_where (λ c. text_eq c.linked_user_id user_id && not (text_eq c.id id)) cut_off cs)
      (λ c. refl)
      (update_where-HasUniqueIds (λ c. text_eq c.linked_user_id user_id && not (text_eq c.id id))
        cut_off cs (λ c. refl) u)

-- A change that links nobody.
abbrev LinksNone : (WhatsAppContact → WhatsAppContact) → Type 0
LinksNone change =
    (c : WhatsAppContact)
    → ((change c).linked_user_id ≡ []) ⊎ ((change c).linked_user_id ≡ c.linked_user_id)

linked_in-update_where :
    (v : Text) (test : WhatsAppContact → Bool) (change : WhatsAppContact → WhatsAppContact)
    (cs : List WhatsAppContact)
    → LinksNone change
    → is_blank v ≡ false
    → linked_in v cs ≡ false
    → linked_in v (update_where test change cs) ≡ false
unfolding linked_in update_where
linked_in-update_where v test change [] k b h = refl
linked_in-update_where [] test change (c ∷ cs) k b h = cc
linked_in-update_where (x ∷ v) test change (c ∷ cs) k b h =
    ground (arith, k c, text_eq_iff [] (x ∷ v), linked_in-update_where (x ∷ v) test change cs k b)

pub update_where-IsExclusive :
    (test : WhatsAppContact → Bool) (change : WhatsAppContact → WhatsAppContact)
    (cs : List WhatsAppContact)
    → LinksNone change
    → IsExclusive cs
    → IsExclusive (update_where test change cs)
unfolding linked_in update_where
update_where-IsExclusive test change [] k e = tt
update_where-IsExclusive test change (c ∷ cs) k (h, e) = (
  λ b. ground (arith, k c, linked_in-update_where c.linked_user_id test change cs k, h, b),
  update_where-IsExclusive test change cs k e,
)

pub upsert_contact-IsExclusive :
    (n : WhatsAppContact) (change : WhatsAppContact → WhatsAppContact) (cs : List WhatsAppContact)
    → n.linked_user_id ≡ []
    → LinksNone change
    → IsExclusive cs
    → IsExclusive (upsert_contact n change cs)
unfolding upsert_contact linked_in
upsert_contact-IsExclusive n change cs b k e =
    elim (Bool-cases (any_where (is_contact n.whatsapp_account_id n.contact_jid) cs)) [
      | inl t ↦
          rw t (
            update_where-IsExclusive (is_contact n.whatsapp_account_id n.contact_jid) change cs k e)
      | inr t ↦ rw t ((λ d. ground (arith, b)), e)
    ]

-- Under `ResolveWhatsAppContact` every user stays linked to one contact at most, whatever
-- statements fail.
pub resolve_whatsapp_contact-IsExclusive :
    (account_id jid name : Text) (w : World)
    → IsExclusive w.wa_contacts
    → IsExclusive (resolve_whatsapp_contact account_id jid name w).1.wa_contacts
unfolding resolve_whatsapp_contact get_whatsapp_account_by_id
resolve_whatsapp_contact-IsExclusive account_id jid name w e =
    elim (Option-cases (find_account account_id w.wa_accounts)) [
      | inl n ↦ ground arith
      | inr (account, n) ↦ ground (
        arith,
        upsert_contact-IsExclusive
            (new_contact (codes "wact" ++ (b'_' ∷ w.random w.draws)) account (trim_space jid)
              (trim_space name) pending)
            (rename (trim_space name)) w.wa_contacts refl (λ c. inr refl) e,
      )
    ]

-- Under `AllowWhatsAppContact` every user stays linked to one contact at most, whatever statements
-- fail.
pub allow_whatsapp_contact-IsExclusive :
    (account : WhatsAppAccount) (phone : Text) (w : World)
    → IsExclusive w.wa_contacts
    → IsExclusive (allow_whatsapp_contact account phone w).1.wa_contacts
unfolding allow_whatsapp_contact
allow_whatsapp_contact-IsExclusive account phone w e = ground (
  arith,
  upsert_contact-IsExclusive
      (new_contact (codes "wact" ++ (b'_' ∷ w.random w.draws)) account
        (normalize_phone_number phone ++ codes "@s.whatsapp.net") (normalize_phone_number phone)
        allowed)
      (allow (normalize_phone_number phone)) w.wa_contacts refl (λ c. inr refl) e,
)

pub remove_allowed_whatsapp_contact-IsExclusive :
    (account_id contact_id : Text) (w : World)
    → IsExclusive w.wa_contacts
    → IsExclusive (remove_allowed_whatsapp_contact account_id contact_id w).1.wa_contacts
unfolding remove_allowed_whatsapp_contact
remove_allowed_whatsapp_contact-IsExclusive account_id contact_id w e = ground (
  arith,
  update_where-IsExclusive
      (λ c. text_eq c.id contact_id && text_eq c.whatsapp_account_id account_id) cut_off
      w.wa_contacts (λ c. inl refl) e,
)
