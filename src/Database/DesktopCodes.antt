-- ===== src/Database/DesktopCodes.antt =====
-- The one-time login codes of the desktop client in internal/database/store.go.
pub mod Once
use be_miawai.Base.{
  ℕ, ◌+◌, ◌*◌, List, [], ◌∷◌, Option, none, some, Bool, true, false, ◌&&◌, Text, codes, text_eq,
  is_blank, ltb, if◌then◌else◌,
}
use be_miawai.Base.Strings.{trim_space}
use be_miawai.Models.{User}
use be_miawai.Database.World.{
  DesktopAuthCode, World, Query, constraint, desktop_code_invalid, ok, err, pure, raise, raise_if,
  gets, modify, ◌>>=◌, ◌>>◌, statement, transaction, new_id,
}
use be_miawai.Database.Subscriptions.{second}
use be_miawai.Database.Users.{select_user, is_some}

unfoldable pub find_code : Text → List DesktopAuthCode → Option DesktopAuthCode
find_code code [] = none
find_code code (c ∷ cs) = if text_eq c.code code then some c else find_code code cs

unfoldable pub create_desktop_auth_code : Text → ℕ → Query Text
create_desktop_auth_code user_id ttl = do
  code ← new_id (codes "dac")
  statement
  clash ← gets (λ w. is_some (find_code code w.desktop_codes))
  raise_if clash constraint
  modify (λ w. record w {
    desktop_codes =
        record {
          code = code;
          user_id = user_id;
          expires_at = w.now + (if ltb 0 ttl then ttl else 120 * second);
          used_at = none;
        }
        ∷ w.desktop_codes;
  })
  pure code

-- `used_at IS NULL AND expires_at > NOW()`
unfoldable pub is_open : ℕ → DesktopAuthCode → Bool
is_open now c = elim c.used_at [ none ↦ ltb now c.expires_at | some _ ↦ false ]

-- The user whom the UPDATE returns: no row, where the code is absent, used or expired.
unfoldable pub open_user : Text → ℕ → List DesktopAuthCode → Option Text
open_user code now [] = none
open_user code now (c ∷ cs) =
    if text_eq c.code code && is_open now c then some c.user_id else open_user code now cs

unfoldable pub mark_used : Text → ℕ → List DesktopAuthCode → List DesktopAuthCode
mark_used code now [] = []
mark_used code now (c ∷ cs) =
    (if text_eq c.code code && is_open now c then record c { used_at = some now } else c)
    ∷ mark_used code now cs

abbrev pub or_invalid : Option Text → Query Text
or_invalid none = raise desktop_code_invalid
or_invalid (some user_id) = pure user_id

unfoldable pub consume_desktop_auth_code : Text → Query User
unfolding select_user
consume_desktop_auth_code raw =
    let code = trim_space raw in
    raise_if (is_blank code) desktop_code_invalid
    >> transaction do
      statement
      user_id ← or_invalid (← gets (λ w. open_user code w.now w.desktop_codes))
      modify (λ w. record w { desktop_codes = mark_used code w.now w.desktop_codes })
      select_user user_id
