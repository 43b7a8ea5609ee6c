-- ===== src/Database/WhatsApp.antt =====
-- internal/database/whatsapp_store.go: the words and numbers of the WhatsApp channel.
pub mod Accounts
pub mod Contacts
pub mod Links
use be_miawai.Base.{
  ℕ, ◌+◌, ◌%◌, List, [], ◌∷◌, Bool, ◌&&◌, Text, codes, text_eq, one_of, map, leb, ◌==◌,
  if◌then◌else◌,
}
use be_miawai.Base.Strings.{folded, before}

abbrev pub central_bot : Text
central_bot = codes "central_bot"

abbrev pub user_linked : Text
user_linked = codes "user_linked"

abbrev pub connected : Text
connected = codes "connected"

abbrev pub disconnected : Text
disconnected = codes "disconnected"

abbrev pub revoked : Text
revoked = codes "revoked"

abbrev pub pending_qr : Text
pending_qr = codes "pending_qr"

abbrev pub allow_all : Text
allow_all = codes "allow_all"

abbrev pub linked_only : Text
linked_only = codes "linked_only"

abbrev pub deny_unknown : Text
deny_unknown = codes "deny_unknown"

abbrev pub incoming : Text
incoming = codes "incoming"

abbrev pub outgoing : Text
outgoing = codes "outgoing"

abbrev pub system : Text
system = codes "system"

abbrev pub pending : Text
pending = codes "pending"

abbrev pub allowed : Text
allowed = codes "allowed"

abbrev pub blocked : Text
blocked = codes "blocked"

abbrev pub verified : Text
verified = codes "verified"

abbrev pub expired : Text
expired = codes "expired"

abbrev pub locked : Text
locked = codes "locked"

-- `normalizeWhatsAppMode`
unfoldable pub normalize_whatsapp_mode : Text → Text
normalize_whatsapp_mode mode =
    if text_eq (folded mode) central_bot then central_bot else user_linked

-- `normalizeWhatsAppStatus`
unfoldable pub normalize_whatsapp_status : Text → Text
normalize_whatsapp_status status =
    if one_of (folded status) (connected ∷ disconnected ∷ revoked ∷ [])
    then folded status
    else pending_qr

-- `normalizeWhatsAppAccessPolicy`
unfoldable pub normalize_whatsapp_access_policy : Text → Text
normalize_whatsapp_access_policy policy =
    if one_of (folded policy) (linked_only ∷ deny_unknown ∷ []) then folded policy else allow_all

-- `normalizeWhatsAppEventDirection`
unfoldable pub normalize_whatsapp_event_direction : Text → Text
normalize_whatsapp_event_direction direction =
    if one_of (folded direction) (incoming ∷ outgoing ∷ system ∷ [])
    then folded direction
    else system

-- The class `\d` of `regexp`, which is ASCII.
abbrev pub is_digit : ℕ → Bool
is_digit c = leb b'0' c && leb c b'9'

-- `normalizePhoneNumber`: every character that is no digit goes.
unfoldable pub normalize_phone_number : Text → Text
normalize_phone_number [] = []
normalize_phone_number (c ∷ s) =
    if is_digit c then c ∷ normalize_phone_number s else normalize_phone_number s

-- `contactJIDUser`
unfoldable pub contact_jid_user : Text → Text
contact_jid_user jid = before b'@' jid

-- A random byte as a digit.
abbrev pub digit_of : ℕ → ℕ
digit_of b = b'0' + b % 10

-- `randomNumericCode` on the random bytes drawn: no code begins with 0.
unfoldable pub random_numeric_code : List ℕ → Text
random_numeric_code [] = []
random_numeric_code (b ∷ bs) = (if digit_of b == b'0' then b'1' else digit_of b) ∷ map digit_of bs
