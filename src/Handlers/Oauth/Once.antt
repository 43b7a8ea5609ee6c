-- ===== src/Handlers/Oauth/Once.antt =====
-- The exchange of a desktop login code for a session (internal/handlers/server.go).
use be_miawai.Base.{
  ◌≡◌, ◌≢◌, ◌∙◌, ◌*◌, ◌≤◌, refl, inl, inr, some, Option-cases, Text, arith, subst, sym,
}
use be_miawai.Database.World.{ok, err, Result, Error, World, resume}
use be_miawai.Auth.Session.{SessionCodec, sign_session}
use be_miawai.Models.{User}
use be_miawai.Handlers.Reply.{Reply, relabel}
use be_miawai.Handlers.Accounts.{Login, token_or, identity_for}
use be_miawai.Handlers.Oauth.{sign_login, exchange_error, desktop_token_exchange}
use be_miawai.Handlers.Access.{decorate_user_access, lookup_dev_account}
use be_miawai.Database.DesktopCodes.Once.{Later, IsOpen, consume_sound, consume_once}
use be_miawai.Base.Strings.{trim_space}
use be_miawai.Database.Subscriptions.{hour}
use be_miawai.Base.Lists.{Any}
use be_miawai.Database.DesktopCodes.{consume_desktop_auth_code}

decorate_keeps_id : (user : User) → (decorate_user_access user).id ≡ user.id
unfolding decorate_user_access
decorate_keeps_id user = elim (Option-cases (lookup_dev_account user.email)) [
  | inl n ↦ rw n refl
  | inr (a, n) ↦ rw n refl
]

-- A signed session, if it is, is the user's, and no table is changed.
signed :
    (codec : SessionCodec) (user : User) (w : World)
    → ((login : Login) → (sign_login codec user w).0 ≡ ok login → login.user.id ≡ user.id)
      × ((sign_login codec user w).1 ≡ w)
signed codec user w =
    elim (Option-cases
      (token_or (sign_session codec (identity_for user) w.now (30 * (24 * hour))))) [
        | inl n ↦ ((λ login h. ground (arith, n, h)), rw n refl)
        | inr (t, n) ↦ ((λ login h. ground (arith, n, h)), rw n refl)
      ]

abbrev exchanged : SessionCodec → Result Error User × World → Result Reply Login × World
exchanged codec r =
    resume (λ u. sign_login codec (decorate_user_access u)) (relabel exchange_error r)

-- A session is given for the user that the code's login gives, and the world is as that left it.
exchanged_user :
    (codec : SessionCodec) (r : Result Error User × World) (login : Login)
    → (exchanged codec r).0 ≡ ok login
    → ((u : User) × (r.0 ≡ ok u) × (login.user.id ≡ u.id)) × ((exchanged codec r).1 ≡ r.1)
exchanged_user codec (ok u, w) login h =
    let (one, same) = signed codec (decorate_user_access u) w in
    ((u, refl, one login h ∙ decorate_keeps_id u), same)
exchanged_user codec (err e, w) login h = cc

-- Where the exchange of a desktop login code answers with a session, the codes held one with the
-- given text, trimmed, that was unused, had not expired and was drawn for the session's user; and
-- no later exchange of the same text is answered with a session, whatever codes are drawn under
-- other names or consumed in between, and whatever statements fail.
pub desktop_token_exchange_once :
    (codec : SessionCodec) (raw : Text) (w w' : World) (login : Login)
    → (desktop_token_exchange codec (some raw) w).0 ≡ ok login
    → w.now ≤ w'.now
    → Later
        (trim_space raw)
        (desktop_token_exchange codec (some raw) w).1.desktop_codes
        w'.desktop_codes
    → Any (IsOpen w.now (trim_space raw) login.user.id) w.desktop_codes
      × ((login' : Login) → (desktop_token_exchange codec (some raw) w').0 ≢ ok login')
unfolding desktop_token_exchange
desktop_token_exchange_once codec raw w w' login h le l =
    let ((u, e, i), same) = exchanged_user codec (consume_desktop_auth_code raw w) login h in
    (
      subst (λ id. Any (IsOpen w.now (trim_space raw) id) w.desktop_codes) (sym i)
          (consume_sound raw w u e),
      λ login' h'.
          let ((u', e', i'), same') =
            exchanged_user codec (consume_desktop_auth_code raw w') login' h' in
          consume_once raw w w' u u' e le
            (subst (λ v. Later (trim_space raw) v.desktop_codes w'.desktop_codes) same l) e',
    )
