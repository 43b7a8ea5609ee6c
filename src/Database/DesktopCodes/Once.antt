-- ===== src/Database/DesktopCodes/Once.antt =====
-- A desktop login code opens one session at most, and none after its time.
use be_miawai.Base.{
  ℕ, ◌≡◌, refl, arith, List, [], ◌∷◌, none, Text, ◌≤◌, ◌≢◌, text_eq_iff, ◌<◌, some, Option-cases,
  inl, inr,
}
use be_miawai.Database.World.{DesktopAuthCode, World, ok, find_user}
use be_miawai.Database.DesktopCodes.{is_open, open_user, mark_used, consume_desktop_auth_code}
use be_miawai.Database.Users.{select_user}
use be_miawai.Base.Lists.{Any}
use be_miawai.Models.{User}
use be_miawai.Base.Strings.{trim_space}
use be_miawai.Database.Users.Effects.{find_user-id}

-- No code opens twice, also not at another time.
open_user-mark_used :
    (code : Text) (now later : ℕ) (cs : List DesktopAuthCode)
    → now ≤ later
    → open_user code later (mark_used code now cs) ≡ none
unfolding open_user mark_used is_open
open_user-mark_used code now later [] le = refl
open_user-mark_used code now later (c ∷ cs) le =
    ground (arith, open_user-mark_used code now later cs le)

open_user-mark_used-none :
    (code d : Text) (now later : ℕ) (cs : List DesktopAuthCode)
    → open_user code later cs ≡ none
    → open_user code later (mark_used d now cs) ≡ none
unfolding open_user mark_used is_open
open_user-mark_used-none code d now later [] h = refl
open_user-mark_used-none code d now later (c ∷ cs) h =
    ground (arith, open_user-mark_used-none code d now later cs)

-- The table after other codes were drawn and any codes were consumed, at any times.
pub data Later (code : Text) (cs : List DesktopAuthCode) : List DesktopAuthCode → Type 0 where
  same : Later code cs cs
  drawn :
      {cs' : List DesktopAuthCode} (c : DesktopAuthCode)
      → c.code ≢ code
      → Later code cs cs'
      → Later code cs (c ∷ cs')
  consumed :
      {cs' : List DesktopAuthCode} (d : Text) (now : ℕ)
      → Later code cs cs'
      → Later code cs (mark_used d now cs')

open_user-Later :
    (code : Text) (later : ℕ) {cs cs' : List DesktopAuthCode}
    → Later code cs cs'
    → open_user code later cs ≡ none
    → open_user code later cs' ≡ none
unfolding open_user
open_user-Later code later same h = h
open_user-Later code later (drawn {cs' = mid} c n l) h =
    ground (arith, open_user-Later code later l h, text_eq_iff c.code code)
open_user-Later code later (consumed {cs' = mid} d now l) h =
    open_user-mark_used-none code d now later mid (open_user-Later code later l h)

select_user-codes : (id : Text) (w : World) → (select_user id w).1.desktop_codes ≡ w.desktop_codes
unfolding select_user
select_user-codes id w = ground arith

-- A code that logged a user in is marked as used.
consume-marks :
    (raw : Text) (w : World) (u : User)
    → (consume_desktop_auth_code raw w).0 ≡ ok u
    → (consume_desktop_auth_code raw w).1.desktop_codes
      ≡ mark_used (trim_space raw) w.now w.desktop_codes
unfolding consume_desktop_auth_code
consume-marks raw w u h = ground arith

consume-closed :
    (raw : Text) (w : World) (u : User)
    → open_user (trim_space raw) w.now w.desktop_codes ≡ none
    → (consume_desktop_auth_code raw w).0 ≢ ok u
unfolding consume_desktop_auth_code
consume-closed raw w u h = ground arith

-- A desktop login code works once: after a login by a code, no later attempt with the same text
-- succeeds, whatever codes are drawn under other names or consumed in between, and whatever
-- statements fail.
pub consume_once :
    (raw : Text) (w w' : World) (u u' : User)
    → (consume_desktop_auth_code raw w).0 ≡ ok u
    → w.now ≤ w'.now
    → Later (trim_space raw) (consume_desktop_auth_code raw w).1.desktop_codes w'.desktop_codes
    → (consume_desktop_auth_code raw w').0 ≢ ok u'
consume_once raw w w' u u' h le l = consume-closed raw w' u' (
    open_user-Later (trim_space raw) w'.now l (
      rw (consume-marks raw w u h)
        (open_user-mark_used (trim_space raw) w.now w'.now w.desktop_codes le)))

-- A code that nobody has used and whose time has not come.
abbrev pub IsOpen : ℕ → Text → Text → DesktopAuthCode → Type 0
IsOpen now code user_id c =
    (c.code ≡ code) × (c.used_at ≡ none) × (now < c.expires_at) × (c.user_id ≡ user_id)

open_user-IsOpen :
    (code : Text) (now : ℕ) (cs : List DesktopAuthCode) (user_id : Text)
    → open_user code now cs ≡ some user_id
    → Any (IsOpen now code user_id) cs
unfolding open_user is_open
open_user-IsOpen code now [] user_id h = cc
open_user-IsOpen code now (c ∷ cs) user_id h =
    ground (arith, open_user-IsOpen code now cs user_id, text_eq_iff c.code code)

consume-id :
    (raw : Text) (w : World) (u : User) (id : Text)
    → open_user (trim_space raw) w.now w.desktop_codes ≡ some id
    → (consume_desktop_auth_code raw w).0 ≡ ok u
    → u.id ≡ id
unfolding consume_desktop_auth_code
consume-id raw w u id e h = elim (Option-cases (find_user id w.users)) [
  | inl absent ↦ ground arith
  | inr (r, found) ↦ ground (arith, find_user-id id w.users r found)
]

-- Where a desktop login succeeds, the codes held one with the given text, trimmed, that was
-- unused, had not expired and was drawn for the user returned, whatever statements fail.
pub consume_sound :
    (raw : Text) (w : World) (u : User)
    → (consume_desktop_auth_code raw w).0 ≡ ok u
    → Any (IsOpen w.now (trim_space raw) u.id) w.desktop_codes
consume_sound raw w u h = elim (Option-cases (open_user (trim_space raw) w.now w.desktop_codes)) [
  | inl e ↦ absurd (consume-closed raw w u e h)
  | inr (id, e) ↦
      rw (consume-id raw w u id e h) (open_user-IsOpen (trim_space raw) w.now w.desktop_codes id e)
]
