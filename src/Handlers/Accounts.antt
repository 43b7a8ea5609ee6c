-- ===== src/Handlers/Accounts.antt =====
-- The account handlers of internal/handlers/server.go: registration, login, the trial, and the test
-- of a session that guards every other handler.
pub mod Laws
pub mod Register
use be_miawai.Base.{
  ℕ, ◌+◌, ◌*◌, [], ◌∷◌, List, Option, none, some, Bool, true, false, not, ◌&&◌, ◌||◌, Text, codes,
  text_eq, is_blank, ltb, map, if◌then◌else◌,
}
use be_miawai.Base.Strings.{trim_space, has_prefix, trim_prefix, before}
use be_miawai.Base.Split.{lacks}
use be_miawai.Models.{User, SessionIdentity, OAuthProfile}
use be_miawai.Database.World.{
  World, Error, Result, ok, err, pure, gets, no_rows, email_already_exists, trial_already_used,
  ◌>>=◌, ◌>>◌,
}
use be_miawai.Database.Subscriptions.{hour, start_trial_subscription}
use be_miawai.Database.Users.{
  create_password_user, find_password_account_by_email, find_or_create_oauth_user, get_user_by_id,
}
use be_miawai.Auth.{AuthError}
use be_miawai.Auth.Session.{SessionCodec, sign_session, parse_session}
use be_miawai.Handlers.Reply.{Handler, Reply, reply, deny_if, required, from_store}
use be_miawai.Handlers.Billing.{is_not_found}
use be_miawai.Handlers.Access.{
  normalize_email, decorate_user_access, apply_session_access, lookup_dev_account, DevAccount,
}
use be_miawai.Base.Bytes.{byte_length}

-- What a login answers with, and the session it begins.
pub record Login : Type 0 where
  pub token : Text
  pub user : User

abbrev pub identity_for : User → SessionIdentity
identity_for user = record {
  user_id = user.id;
  email = user.email;
  role = user.role;
  access = user.access;
}

abbrev pub token_or : Result AuthError Text → Option Text
token_or (ok token) = some token
token_or (err e) = none

-- `writeUserSession`; the cookie carries a token signed the same way.
unfoldable pub write_user_session : SessionCodec → User → Handler Login
write_user_session codec user = do
  now ← gets (λ w. w.now)
  token ←
      required (token_or (sign_session codec (identity_for user) now (30 * (24 * hour)))) 500
        "failed to create session"
  pure (record { token = token; user = user })

-- The package bcrypt: the hash of a password, if it gives one, and the test of a password.
pub record Bcrypt : Type 0 where
  pub generate : Text → Option Text
  pub matches : Text → Text → Bool

pub record Registration : Type 0 where
  pub name : Text
  pub email : Text
  pub password : Text

abbrev pub registration_error : Error → Reply
registration_error email_already_exists = reply 409 "email already registered"
registration_error _ = reply 500 "failed to register account"

abbrev pub chosen_name : Text → Text → Text
chosen_name name email = if is_blank (trim_space name) then before b'@' email else trim_space name

unfoldable pub register : SessionCodec → Bcrypt → Option Registration → Handler Login
unfolding write_user_session
register codec bcrypt decoded = do
  body ← required decoded 400 "invalid json body"
  let email = normalize_email body.email
  deny_if (is_blank email || lacks b'@' email) 400 "valid email is required"
  deny_if (ltb (byte_length body.password) 8) 400 "password must be at least 8 characters"
  hash ← required (bcrypt.generate body.password) 500 "failed to secure password"
  user ←
      from_store registration_error (create_password_user email (chosen_name body.name email) hash)
  write_user_session codec (decorate_user_access user)

pub record Credentials : Type 0 where
  pub email : Text
  pub password : Text

abbrev pub login_error : Error → Reply
login_error e =
    if is_not_found e then reply 401 "invalid email or password" else reply 500 "failed to sign in"

unfoldable pub password_login : SessionCodec → Bcrypt → Option Credentials → Handler Login
unfolding write_user_session
password_login codec bcrypt decoded = do
  body ← required decoded 400 "invalid json body"
  account ← from_store login_error (find_password_account_by_email (normalize_email body.email))
  deny_if (not (bcrypt.matches account.1 body.password)) 401 "invalid email or password"
  write_user_session codec (decorate_user_access account.0)

abbrev pub dev_profile : DevAccount → OAuthProfile
dev_profile account = record {
  provider = codes "dev";
  provider_user_id = account.email;
  email = account.email;
  name = account.name;
  avatar_url = [];
}

abbrev pub dev_account_of : Credentials → Option DevAccount → Option DevAccount
dev_account_of body none = none
dev_account_of body (some account) =
    if text_eq account.password body.password then some account else none

-- `devLogin`; it answers with the user, and its session's token is in the cookie.
unfoldable pub dev_login : Bool → SessionCodec → Option Credentials → Handler Login
dev_login enable_dev_auth codec decoded =
    deny_if (not enable_dev_auth) 403 "dev auth is disabled" >> do
      body ← required decoded 400 "invalid json body"
      account ←
          required (dev_account_of body (lookup_dev_account body.email)) 401
            "invalid dev credentials"
      user ←
          from_store (λ e. reply 500 "failed to create dev session")
            (find_or_create_oauth_user (dev_profile account))
      write_user_session codec (decorate_user_access user)

-- `strings.EqualFold` with an ASCII text that holds no k and no s, for which no other code point
-- than the other case folds to a letter of it.
unfoldable pub equal_fold : Text → Text → Bool
equal_fold s t = text_eq (map (λ c. if ltb 0x40 c && ltb c 0x5b then c + 32 else c) s) t

abbrev pub trial_error : Error → Reply
trial_error trial_already_used = reply 409 "trial already used"
trial_error _ = reply 500 "failed to start trial"

unfoldable pub start_trial : User → Handler User
start_trial user =
    deny_if
      (equal_fold user.subscription_status (codes "active")
        || equal_fold user.subscription_status (codes "trialing"))
      409 "Pro access is already active"
    >> do
      from_store trial_error (start_trial_subscription user.id (72 * hour))
      updated ← from_store (λ e. reply 500 "failed to load account") (get_user_by_id user.id)
      pure (decorate_user_access updated)

-- The token of a request: its Authorization header, or the cookie's value, blank where there is none.
abbrev pub session_token : Text → Text → Text
session_token authorization cookie =
    if has_prefix authorization (codes "Bearer ")
    then trim_prefix authorization (codes "Bearer ")
    else cookie

abbrev pub identity_or : Result AuthError SessionIdentity → Option SessionIdentity
identity_or (ok identity) = some identity
identity_or (err e) = none

-- `requireUser`: the user that the guarded handler gets.
unfoldable pub require_user : SessionCodec → Text → Text → Handler User
require_user codec authorization cookie =
    let token = session_token authorization cookie in
    deny_if (is_blank token) 401 "authentication required" >> do
      now ← gets (λ w. w.now)
      identity ← required (identity_or (parse_session codec now token)) 401 "invalid session"
      user ← from_store (λ e. reply 401 "user not found") (get_user_by_id identity.user_id)
      pure (apply_session_access user identity)
