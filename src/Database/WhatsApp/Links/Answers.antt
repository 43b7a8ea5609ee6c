-- ===== src/Database/WhatsApp/Links/Answers.antt =====
-- How `VerifyWhatsAppLinkCode` of internal/database/whatsapp_store.go answers a code, and what it
-- writes.
use be_miawai.Base.{
  [], ◌∷◌, ◌≡◌, ◌≢◌, ◌≤◌, ◌<◌, ◌+◌, ◌⊎◌, inl, inr, refl, arith, some, false, true, Text, List,
  text_eq, codes, text_eq_iff, if◌then◌else◌, ◌&&◌, not, Bool-cases, text_eq_sound, ℕ, leb,
  is_blank, subst, sym,
}
use be_miawai.Database.World.{ok, World, Calm}
use be_miawai.Models.{WhatsAppContact, WhatsAppLinkCode}
use be_miawai.Database.WhatsApp.Contacts.{cut_off, link_to, update_where}
use be_miawai.Database.WhatsApp.Links.{
  verify_whatsapp_link_code, update_link, check_code, accept_code, fail_once, reject_code,
  latest_pending,
}
use be_miawai.Database.WhatsApp.Contacts.Exclusive.{relink}
use be_miawai.Database.WhatsApp.Links.Verify.{phone_of}
use be_miawai.Base.Strings.{trim_space}

-- The contact with the id is linked to the user and allowed; another one of the user's is blocked
-- and speaks for nobody; every other one stays.
abbrev pub Relinks : Text → Text → WhatsAppContact → WhatsAppContact → Type 0
Relinks user_id id c d =
    ((c.id ≡ id)
      × (d ≡ record c {
        linked_user_id = user_id;
        allow_status = codes "allowed";
        verification_attempts = 0;
      }))
    ⊎ ((c.id ≢ id)
        × (c.linked_user_id ≡ user_id)
        × (d ≡ record c {
          allow_status = codes "blocked";
          linked_user_id = [];
          default_conversation_id = [];
          verification_attempts = 0;
        }))
    ⊎ ((c.id ≢ id) × (c.linked_user_id ≢ user_id) × (d ≡ c))

-- So it is of each row, in order.
abbrev pub AllRelinked : Text → Text → List WhatsAppContact → List WhatsAppContact → Type 0
AllRelinked user_id id [] [] = Unit
AllRelinked user_id id [] (d ∷ ds) = ⊥
AllRelinked user_id id (c ∷ cs) [] = ⊥
AllRelinked user_id id (c ∷ cs) (d ∷ ds) = Relinks user_id id c d × AllRelinked user_id id cs ds

differ : (a b : Text) → text_eq a b ≡ false → a ≢ b
differ a b h e = ground (arith, h, text_eq_iff a b, e)

relinked_row :
    (user_id id : Text) (c : WhatsAppContact)
    → let d = if text_eq c.linked_user_id user_id && not (text_eq c.id id) then cut_off c else c in
      Relinks user_id id c (if text_eq d.id id then link_to user_id d else d)
relinked_row user_id id c = elim (Bool-cases (text_eq c.id id)) [
  | inl t ↦
      let e : c.id ≡ id = text_eq_sound c.id id t in
      elim (Bool-cases (text_eq c.linked_user_id user_id)) [
        | inl u ↦ rw (u, t, t) (inl (e, refl))
        | inr u ↦ rw (u, t) (inl (e, refl))
      ]
  | inr t ↦
      let e : c.id ≢ id = differ c.id id t in
      elim (Bool-cases (text_eq c.linked_user_id user_id)) [
        | inl u ↦ rw (u, t, t) (inr (inl (e, text_eq_sound c.linked_user_id user_id u, refl)))
        | inr u ↦ rw (u, t) (inr (inr (e, differ c.linked_user_id user_id u, refl)))
      ]
]

relink-AllRelinked :
    (user_id id : Text) (cs : List WhatsAppContact)
    → AllRelinked user_id id cs (relink user_id id cs)
unfolding update_where
relink-AllRelinked user_id id [] = tt
relink-AllRelinked user_id id (c ∷ cs) =
    (relinked_row user_id id c, relink-AllRelinked user_id id cs)

-- Where no statement fails, the right code, given before its end from a contact with a phone
-- number, is accepted for its user; afterwards the rows of the contact are linked to the user and
-- allowed with no attempt counted, those of the user's other contacts are blocked, linked to
-- nobody and have no conversation, and all others are as before.
pub verify_complete :
    (contact_id jid text : Text) (w : World) (link : WhatsAppLinkCode)
    → Calm w
    → latest_pending (phone_of jid) w.wa_links ≡ some link
    → is_blank (phone_of jid) ≡ false
    → is_blank (trim_space text) ≡ false
    → trim_space text ≡ link.code
    → w.now ≤ link.expires_at
    → ((verify_whatsapp_link_code contact_id jid text w).0
        ≡ ok (record { user_id = link.user_id; matched = true; attempts = 0 }))
      × AllRelinked link.user_id contact_id w.wa_contacts
          (verify_whatsapp_link_code contact_id jid text w).1.wa_contacts
unfolding verify_whatsapp_link_code check_code accept_code
verify_complete contact_id jid text w link c e b d m t =
    let after : (verify_whatsapp_link_code contact_id jid text w).1.wa_contacts
        ≡ relink link.user_id contact_id w.wa_contacts =
      ground (arith, text_eq_iff (trim_space text) link.code) in
    (
      ground (arith, text_eq_iff (trim_space text) link.code),
      subst (AllRelinked link.user_id contact_id w.wa_contacts) (sym after)
          (relink-AllRelinked link.user_id contact_id w.wa_contacts),
    )

-- The code with the id has been missed so often, and is locked where that is three times or more;
-- every other one stays.
abbrev pub Misses : Text → ℕ → WhatsAppLinkCode → WhatsAppLinkCode → Type 0
Misses id missed l m =
    ((l.id ≡ id) × (missed < 3) × (m ≡ record l { attempts = missed; status = codes "pending" }))
    ⊎ ((l.id ≡ id) × (3 ≤ missed) × (m ≡ record l { attempts = missed; status = codes "locked" }))
    ⊎ ((l.id ≢ id) × (m ≡ l))

abbrev pub AllMissed : Text → ℕ → List WhatsAppLinkCode → List WhatsAppLinkCode → Type 0
AllMissed id missed [] [] = Unit
AllMissed id missed [] (m ∷ ms) = ⊥
AllMissed id missed (l ∷ ls) [] = ⊥
AllMissed id missed (l ∷ ls) (m ∷ ms) = Misses id missed l m × AllMissed id missed ls ms

fail_once-AllMissed :
    (id : Text) (missed : ℕ) (ls : List WhatsAppLinkCode)
    → AllMissed id missed ls (update_link id (fail_once missed) ls)
unfolding update_link
fail_once-AllMissed id missed [] = tt
fail_once-AllMissed id missed (l ∷ ls) = (
  elim (Bool-cases (text_eq l.id id)) [
    | inl t ↦ elim (Bool-cases (leb 3 missed)) [
      | inl u ↦ rw (t, u) (inr (inl (text_eq_sound l.id id t, ground (arith, u), refl)))
      | inr u ↦ rw (t, u) (inl (text_eq_sound l.id id t, ground (arith, u), refl))
    ]
    | inr t ↦ rw t (inr (inr (differ l.id id t, refl)))
  ],
  fail_once-AllMissed id missed ls,
)

-- Where no statement fails, a wrong code, given before the end of the newest pending one of the
-- phone number, is refused with one more attempt counted, in the answer and in the link code,
-- which stays pending up to the second attempt and is locked from the third on; all other link
-- codes are as before.
pub verify_wrong :
    (contact_id jid text : Text) (w : World) (link : WhatsAppLinkCode)
    → Calm w
    → latest_pending (phone_of jid) w.wa_links ≡ some link
    → is_blank (phone_of jid) ≡ false
    → is_blank (trim_space text) ≡ false
    → trim_space text ≢ link.code
    → w.now ≤ link.expires_at
    → ((verify_whatsapp_link_code contact_id jid text w).0
        ≡ ok (record { user_id = []; matched = false; attempts = link.attempts + 1 }))
      × AllMissed link.id
          (link.attempts + 1)
          w.wa_links
          (verify_whatsapp_link_code contact_id jid text w).1.wa_links
unfolding verify_whatsapp_link_code check_code reject_code
verify_wrong contact_id jid text w link c e b d m t =
    let after : (verify_whatsapp_link_code contact_id jid text w).1.wa_links
        ≡ update_link link.id (fail_once (link.attempts + 1)) w.wa_links =
      ground (arith, text_eq_iff (trim_space text) link.code) in
    (
      ground (arith, text_eq_iff (trim_space text) link.code),
      subst (AllMissed link.id (link.attempts + 1) w.wa_links) (sym after)
          (fail_once-AllMissed link.id (link.attempts + 1) w.wa_links),
    )
