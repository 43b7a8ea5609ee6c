-- ===== src/Tests/Login.antt =====
-- The theorems on registration, login, the trial and the session test at concrete inputs.
use be_miawai.Database.DesktopCodes.Once.{same, IsOpen}
use be_miawai.Base.{
  ◌≡◌, [], some, codes, text_eq, Text, none, ◌++◌, ◌*◌, arith, text_eq_refl, refl, one_of, ◌⊎◌, inl,
  ◌≢◌,
}
use be_miawai.Base.Strings.{
  trim_space, trim_left, trim_right, snoc_trim, is_space, lower, folded, has_prefix, trim_prefix,
  drop_text,
}
use be_miawai.Tests.Sample.{sample, bob, github_ada, ada}
use be_miawai.Tests.Codecs.{session_codec, state_codec}
use be_miawai.Base.Split.{lacks, split}
use be_miawai.Database.Users.{
  create_password_user, id_by_email, get_user_by_id, select_user, scan_user,
}
use be_miawai.Handlers.Access.{
  lookup_dev_account, apply_session_access, member_access, decorate_user_access,
}
use be_miawai.Base.Ints.{exceeds}
use be_miawai.Auth.Session.{parse_session, parse_parts, sign_session}
use be_miawai.Database.Status.{normalize_subscription_status, subscription_status_rank}
use be_miawai.Database.Subscriptions.{
  refresh_user_entitlement, set_entitlement, conclude, entitlement, fall_back, rows_of, runs, scan,
  hour,
}
use be_miawai.Handlers.Accounts.{
  Bcrypt, Registration, register, require_user, Login, token_or, password_login, session_token,
  identity_for,
}
use be_miawai.Models.{User, SessionIdentity}
use be_miawai.Database.World.{find_user, World, ok, Result, err}
use be_miawai.Auth.Laws.{IsSigned}
use be_miawai.Handlers.Accounts.Register.{password_login-register}
use be_miawai.Handlers.Accounts.Laws.{Identifies, require_user_sound}
use be_miawai.Base.Bytes.{byte_length}
use be_miawai.Handlers.Oauth.{desktop_token_exchange, oauth_callback}
use be_miawai.Handlers.Reply.{Reply}
use be_miawai.Handlers.Oauth.Guard.{oauth_callback_guarded}
use be_miawai.Database.DesktopCodes.{consume_desktop_auth_code, open_user, is_open}
use be_miawai.Auth.State.{verify_oauth_state, verify_state_parts}
use be_miawai.Base.Lists.{Any}
use be_miawai.Handlers.Oauth.Once.{desktop_token_exchange_once}

-- A hash that is its password.
abbrev plain : Bcrypt
plain = record { generate = λ p. some p; matches = λ h p. text_eq h p }

abbrev cleo : Registration
cleo = record { name = codes " Cleo "; email = codes "Cleo@x.io"; password = codes "longenough" }

abbrev cleo_user : User
cleo_user = record {
  id = codes "usr_r0";
  email = codes "cleo@x.io";
  name = codes "Cleo";
  avatar_url = [];
  plan = codes "free";
  role = codes "member";
  access = member_access;
  subscription_status = codes "none";
  entitled_until = none;
  created_at = 1000;
}

abbrev cleo_token : Text
unfolding sign_session
cleo_token =
    elim (token_or (sign_session session_codec (identity_for cleo_user) 1000 (30 * (24 * hour)))) [
      | some t ↦ t
      | none ↦ []
    ]

abbrev registered : World
unfolding register
registered = (register session_codec plain (some cleo) sample).1

password_login-register_example :
    (again : Login) × ((password_login session_codec plain
        (some (record { email = codes "Cleo@x.io"; password = codes "longenough" }))
        registered).0
      ≡ ok again)
    × (again.user.id ≡ codes "usr_r0")
unfolding register folded trim_space trim_right trim_left is_space snoc_trim lacks lower byte_length
    create_password_user id_by_email text_eq find_user sign_session decorate_user_access
    lookup_dev_account
password_login-register_example =
    password_login-register session_codec plain cleo sample registered
      (record { token = cleo_token; user = cleo_user })
      (λ hash e. ground (arith, e, text_eq_refl cleo.password)) refl refl refl refl

abbrev bob_session : SessionIdentity
bob_session = record { user_id = codes "bob"; email = []; role = []; access = [] }

abbrev bob_token : Text
unfolding sign_session
bob_token = elim (token_or (sign_session session_codec bob_session 1000 hour)) [
  | some t ↦ t
  | none ↦ []
]

abbrev bob_now : User
bob_now = record (scan_user bob) { role = codes "member"; access = member_access }

require_user_sound_example :
    IsSigned session_codec.mac (session_token (codes "Bearer " ++ bob_token) [])
    × Identifies session_codec (session_token (codes "Bearer " ++ bob_token) []) sample bob_now
unfolding require_user has_prefix trim_prefix drop_text bob_token parse_session text_eq exceeds
    get_user_by_id refresh_user_entitlement find_user set_entitlement apply_session_access
    lookup_dev_account folded trim_space trim_right trim_left parse_parts sign_session split
    is_space lower snoc_trim one_of normalize_subscription_status subscription_status_rank conclude
    entitlement fall_back rows_of runs scan select_user decorate_user_access
require_user_sound_example =
    require_user_sound session_codec (codes "Bearer " ++ bob_token) [] sample bob_now refl

abbrev by_code : Result Reply Login × World
unfolding desktop_token_exchange
by_code = desktop_token_exchange session_codec (some (codes "dac_1")) sample

abbrev ada_now : User
ada_now = record (scan_user ada) { role = codes "member"; access = member_access }

abbrev ada_token : Text
unfolding sign_session
ada_token =
    elim (token_or (sign_session session_codec (identity_for ada_now) 1000 (30 * (24 * hour)))) [
      | some t ↦ t
      | none ↦ []
    ]

abbrev ada_login : Login
ada_login = record { token = ada_token; user = ada_now }

desktop_token_exchange_once_example :
    Any (IsOpen 1000 (trim_space (codes "dac_1")) (codes "ada")) sample.desktop_codes
    × ((login' : Login)
        → (desktop_token_exchange session_codec (some (codes "dac_1")) by_code.1).0 ≢ ok login')
unfolding ada_token desktop_token_exchange consume_desktop_auth_code open_user is_open text_eq
    trim_space trim_left trim_right snoc_trim is_space find_user sign_session decorate_user_access
    lookup_dev_account one_of folded lower
desktop_token_exchange_once_example =
    desktop_token_exchange_once session_codec (codes "dac_1") sample by_code.1 ada_login refl
      (ground arith) same

oauth_callback_guarded_example :
    (r : Reply) × ((r.code ≡ 400) ⊎ (r.code ≡ 502))
    × (oauth_callback session_codec
          (λ provider code w. some github_ada)
          state_codec
          (codes "github")
          (record { state = codes "forged"; error = []; code = codes "c" })
          sample
        ≡ (err r, sample))
unfolding verify_oauth_state split verify_state_parts text_eq
oauth_callback_guarded_example =
    oauth_callback_guarded session_codec (λ provider code w. some github_ada) state_codec
      (codes "github") (record { state = codes "forged"; error = []; code = codes "c" }) sample
      (inl refl)
