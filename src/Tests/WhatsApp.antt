-- ===== src/Tests/WhatsApp.antt =====
-- The theorems on the WhatsApp channel at concrete inputs.
use be_miawai.Base.Strings.{trim_space, trim_left, trim_right, snoc_trim, is_space, before}
use be_miawai.Base.{
  ℕ, List, text_eq-apart, refl, codes, text_eq, ◌≡◌, arith, true, ◌∷◌, ◌+◌, [], false,
}
use be_miawai.Tests.Sample.{sample, link}
use be_miawai.Database.WhatsApp.Links.{verify_whatsapp_link_code, latest_pending}
use be_miawai.Database.WhatsApp.Contacts.Exclusive.{has_id, linked_in, HasUniqueIds, IsExclusive}
use be_miawai.Database.WhatsApp.{normalize_phone_number, contact_jid_user}
use be_miawai.Database.WhatsApp.Links.Verify.{
  verify-IsExclusive, IsGuarded, Redeems, verify-IsGuarded, verify_sound,
}
use be_miawai.Models.{WhatsAppLinkCode}
use be_miawai.Database.World.{ok}
use be_miawai.Database.WhatsApp.Links.Answers.{
  AllRelinked, verify_complete, AllMissed, verify_wrong,
}

verify_sound_example :
    (l : WhatsAppLinkCode) × Redeems
      (codes "62@s")
      (codes " 123456")
      sample
      (record { user_id = codes "bob"; matched = true; attempts = 0 })
      l
unfolding verify_whatsapp_link_code text_eq normalize_phone_number contact_jid_user before
    trim_space trim_left trim_right snoc_trim is_space
verify_sound_example =
    verify_sound (codes "wact_2") (codes "62@s") (codes " 123456") sample
      (record { user_id = codes "bob"; matched = true; attempts = 0 }) refl refl

verify_complete_example :
    ((verify_whatsapp_link_code (codes "wact_2") (codes "62@s") (codes " 123456") sample).0
      ≡ ok (record { user_id = link.user_id; matched = true; attempts = 0 }))
    × AllRelinked link.user_id
        (codes "wact_2")
        sample.wa_contacts
        (verify_whatsapp_link_code
          (codes "wact_2")
          (codes "62@s")
          (codes " 123456")
          sample).1.wa_contacts
unfolding latest_pending text_eq normalize_phone_number contact_jid_user before trim_space trim_left
    trim_right snoc_trim is_space
verify_complete_example =
    verify_complete (codes "wact_2") (codes "62@s") (codes " 123456") sample link refl refl refl
      refl refl (ground arith)

verify_wrong_example :
    ((verify_whatsapp_link_code (codes "wact_2") (codes "62@s") (codes "654321") sample).0
      ≡ ok (record { user_id = []; matched = false; attempts = link.attempts + 1 }))
    × AllMissed link.id
        (link.attempts + 1)
        sample.wa_links
        (verify_whatsapp_link_code
          (codes "wact_2")
          (codes "62@s")
          (codes "654321")
          sample).1.wa_links
unfolding latest_pending text_eq normalize_phone_number contact_jid_user before trim_space trim_left
    trim_right snoc_trim is_space
verify_wrong_example =
    verify_wrong (codes "wact_2") (codes "62@s") (codes "654321") sample link refl refl refl refl
      (text_eq-apart (codes "654321") (codes "123456") refl) (ground arith)

verify-IsExclusive_example :
    HasUniqueIds
      (verify_whatsapp_link_code
        (codes "wact_2")
        (codes "62@s")
        (codes "123456")
        sample).1.wa_contacts
    × IsExclusive
        (verify_whatsapp_link_code
          (codes "wact_2")
          (codes "62@s")
          (codes "123456")
          sample).1.wa_contacts
unfolding has_id linked_in text_eq
verify-IsExclusive_example =
    verify-IsExclusive (codes "wact_2") (codes "62@s") (codes "123456") sample (ground arith)
      (ground arith)

verify-IsGuarded_example :
    IsGuarded
      (verify_whatsapp_link_code (codes "wact_2") (codes "62@s") (codes "654321") sample).1.wa_links
verify-IsGuarded_example =
    verify-IsGuarded (codes "wact_2") (codes "62@s") (codes "654321") sample
      ((λ e. ground arith), tt)

abbrev drawn_bytes : List ℕ
drawn_bytes = 10 ∷ 255 ∷ 3 ∷ []
