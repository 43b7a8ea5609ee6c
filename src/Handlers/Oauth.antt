-- ===== src/Handlers/Oauth.antt =====
-- Logins through a provider, in the browser and in the desktop application
-- (internal/handlers/server.go). What the provider answers is a parameter.
pub mod Once
pub mod Guard
use be_miawai.Base.{◌*◌, true, false, ℕ, Text, Option, Bool, some, none, not, is_blank}
use be_miawai.Database.World.{
  ◌>>=◌, ◌>>◌, ok, err, desktop_code_invalid, Result, Error, World, gets, pure,
}
use be_miawai.Auth.Session.{SessionCodec, sign_session}
use be_miawai.Database.Subscriptions.{second, hour}
use be_miawai.Handlers.Accounts.{Login, token_or, write_user_session, identity_for}
use be_miawai.Auth.{AuthError}
use be_miawai.Models.{User, OAuthProfile}
use be_miawai.Handlers.Reply.{Reply, Handler, reply, from_store, required, deny_if}
use be_miawai.Auth.State.{OauthState, StateCodec, verify_oauth_state}
use be_miawai.Database.DesktopCodes.{create_desktop_auth_code, consume_desktop_auth_code}
use be_miawai.Database.Users.{find_or_create_oauth_user}
use be_miawai.Handlers.Access.{decorate_user_access}

abbrev pub minute : ℕ
minute = 60 * second

-- How a login by a provider ends: a code for the desktop application, or a session.
pub data OauthOutcome : Type 0 where
  desktop_code : Text → OauthOutcome
  session : Login → OauthOutcome

-- The query of `oauthCallback`.
pub record CallbackQuery : Type 0 where
  pub state : Text
  pub error : Text
  pub code : Text

abbrev pub state_or : Result AuthError OauthState → Option OauthState
state_or (ok s) = some s
state_or (err e) = none

abbrev pub finish_login : SessionCodec → User → Bool → Handler OauthOutcome
finish_login codec user true = do
  code ←
      from_store (λ e. reply 500 "failed to create desktop auth code")
        (create_desktop_auth_code user.id (2 * minute))
  pure (desktop_code code)
finish_login codec user false = do login ← write_user_session codec user; pure (session login)

-- The session of a desktop application, or of a token exchange.
abbrev pub sign_login : SessionCodec → User → Handler Login
sign_login codec user = do
  now ← gets (λ w. w.now)
  token ←
      required (token_or (sign_session codec (identity_for user) now (30 * (24 * hour)))) 500
        "failed to sign session"
  pure (record { token = token; user = user })

abbrev pub exchange_error : Error → Reply
exchange_error desktop_code_invalid = reply 401 "desktop login expired or already used"
exchange_error _ = reply 500 "failed to exchange desktop login"

unfoldable pub desktop_token_exchange : SessionCodec → Option Text → Handler Login
desktop_token_exchange codec decoded = do
  code ← required decoded 400 "invalid json body"
  user ← from_store exchange_error (consume_desktop_auth_code code)
  sign_login codec (decorate_user_access user)

module _ (codec : SessionCodec) (exchange : Text → Text → World → Option OAuthProfile) where
  unfoldable pub oauth_callback : StateCodec → Text → CallbackQuery → Handler OauthOutcome
  oauth_callback states provider query = do
    now ← gets (λ w. w.now)
    state ←
        required (state_or (verify_oauth_state states now query.state provider)) 400
          "invalid oauth state"
    deny_if (not (is_blank query.error)) 502 "oauth provider rejected login"
    deny_if (is_blank query.code) 400 "missing oauth code"
    profile ← λ w. required (exchange provider query.code w) 502 "oauth provider exchange failed" w
    user ← from_store (λ e. reply 500 "failed to upsert user") (find_or_create_oauth_user profile)
    finish_login codec (decorate_user_access user) state.desktop

  -- The body of `tokenExchange`: the provider and its code.
  unfoldable pub token_exchange : Option (Text × Text) → Handler Login
  token_exchange decoded = do
    body ← required decoded 400 "invalid json body"
    profile ← λ w. required (exchange body.0 body.1 w) 502 "oauth provider exchange failed" w
    user ← from_store (λ e. reply 500 "failed to upsert user") (find_or_create_oauth_user profile)
    sign_login codec (decorate_user_access user)
