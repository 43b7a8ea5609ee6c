-- ===== src/Handlers/Accounts/Register.antt =====
-- Registration and login together (internal/handlers/server.go).
use be_miawai.Base.{
  ◌*◌, ◌∷◌, [], ◌≡◌, Text, some, arith, is_blank, Option-cases, false, inl, codes, inr, ◌++◌, none,
  text_eq_refl, ap, true, ◌∙◌, sym,
}
use be_miawai.Handlers.Accounts.Laws.{Result-cases}
use be_miawai.Handlers.Accounts.{
  register, password_login, write_user_session, Registration, Bcrypt, Login, chosen_name,
  identity_for,
}
use be_miawai.Database.Users.{
  create_password_user, password_account, insert_user, select_user, find_password_account_by_email,
  scan_user,
}
use be_miawai.Handlers.Access.{decorate_user_access, normalize_email}
use be_miawai.Database.World.{World, UserRow, ok, find_user, Calm}
use be_miawai.Auth.Session.{sign_session, SessionCodec, claims_of}
use be_miawai.Models.{User}
use be_miawai.Database.Subscriptions.{free, hour}
use be_miawai.Database.Status.{no_status}

-- The account that a registration leaves behind.
abbrev IsRegistered : Text → Text → Text → World → Type 0
IsRegistered email hash id w =
    (r : UserRow) × (password_account email w.users w.password_accounts ≡ some (r, hash))
    × (r.id ≡ id)

create_password_user-found :
    (email name hash : Text) (w : World) (u : User)
    → (create_password_user email name hash w).0 ≡ ok u
    → IsRegistered email hash u.id (create_password_user email name hash w).1
unfolding create_password_user password_account insert_user select_user find_user
create_password_user-found email name hash w u h = (
  record {
    id = codes "usr" ++ (b'_' ∷ w.random w.draws);
    email = email;
    name = name;
    avatar_url = [];
    plan = free;
    subscription_status = no_status;
    entitled_until = none;
    created_at = w.now;
  },
  ground (arith, text_eq_refl email, text_eq_refl (codes "usr" ++ (b'_' ∷ w.random w.draws))),
  ground (arith, text_eq_refl (codes "usr" ++ (b'_' ∷ w.random w.draws))),
)

decorate_user_access-id : (u : User) → (decorate_user_access u).id ≡ u.id
unfolding decorate_user_access
decorate_user_access-id u = ground arith

-- What a registration that succeeded has done.
abbrev Created : Bcrypt → Registration → Login → World → World → Type 0
Created bcrypt body login w w' =
    (hash : Text) × (bcrypt.generate body.password ≡ some hash)
    × IsRegistered (normalize_email body.email) hash login.user.id w'
    × (is_blank login.user.id ≡ false)

created_by :
    (codec : SessionCodec) (bcrypt : Bcrypt) (body : Registration) (w : World) (login : Login)
    (hash : Text) (u : User)
    → (register codec bcrypt (some body) w).0 ≡ ok login
    → bcrypt.generate body.password ≡ some hash
    → (create_password_user
        (normalize_email body.email)
        (chosen_name body.name (normalize_email body.email))
        hash
        w).0
      ≡ ok u
    → (login.user.id ≡ u.id)
      × (is_blank login.user.id ≡ false)
      × ((register codec bcrypt (some body) w).1
          ≡ (create_password_user
              (normalize_email body.email)
              (chosen_name body.name (normalize_email body.email))
              hash
              w).1)
unfolding register write_user_session sign_session
created_by codec bcrypt body w login hash u h g c = (
  ground (arith, h, g, c, decorate_user_access-id u),
  ground (arith, h, g, c, decorate_user_access-id u),
  ground (arith, h, g, c),
)

register-Created :
    (codec : SessionCodec) (bcrypt : Bcrypt) (body : Registration) (w : World) (login : Login)
    → (register codec bcrypt (some body) w).0 ≡ ok login
    → Created bcrypt body login w (register codec bcrypt (some body) w).1
unfolding register
register-Created codec bcrypt body w login h = elim (Option-cases (bcrypt.generate body.password)) [
  | inl e ↦ absurd (ground (arith, h, e))
  | inr (hash, g) ↦
      elim (Result-cases
        (create_password_user (normalize_email body.email)
          (chosen_name body.name (normalize_email body.email)) hash w).0) [
            | inr (e, c) ↦ absurd (ground (arith, h, g, c))
            | inl (u, c) ↦
                let email = normalize_email body.email in
                let (lid, dark, same) = created_by codec bcrypt body w login hash u h g c in
                let (r, q, i) =
                  create_password_user-found email (chosen_name body.name email) hash w u c in
                let found : IsRegistered email hash login.user.id
                    (register codec bcrypt (some body) w).1 =
                  (
                    r,
                    ap (λ v. password_account email v.users v.password_accounts) same ∙ q,
                    i ∙ sym lid,
                  ) in
                (hash, g, found, dark)
          ]
]

login_found :
    (codec : SessionCodec) (bcrypt : Bcrypt) (body : Registration) (w : World) (r : UserRow)
    (hash : Text)
    → Calm w
    → password_account (normalize_email body.email) w.users w.password_accounts ≡ some (r, hash)
    → bcrypt.matches hash body.password ≡ true
    → is_blank r.id ≡ false
    → (login : Login) × ((password_login codec bcrypt
          (some (record { email = body.email; password = body.password }))
          w).0
        ≡ ok login)
      × (login.user.id ≡ r.id)
unfolding password_login write_user_session sign_session find_password_account_by_email
login_found codec bcrypt body w r hash c f m b =
    let u = decorate_user_access (scan_user r) in
    let input =
      codec.encode codec.header
      ++ (b'.'
          ∷ codec.encode (codec.marshal (claims_of (identity_for u) w.now (30 * (24 * hour))))) in
    let name = decorate_user_access-id (scan_user r) in
    (
      record { token = input ++ (b'.' ∷ codec.mac input); user = u },
      ground (arith, c, f, m, b, name),
      name,
    )

-- Where bcrypt accepts a password with the hash that it made of it: after a registration that
-- succeeded, and as long as the users and the password accounts stay as it left them and no
-- statement fails, a login with the same email and password succeeds as the same user.
pub password_login-register :
    (codec : SessionCodec) (bcrypt : Bcrypt) (body : Registration) (w w' : World) (login : Login)
    → ((hash : Text)
        → bcrypt.generate body.password ≡ some hash
        → bcrypt.matches hash body.password ≡ true)
    → (register codec bcrypt (some body) w).0 ≡ ok login
    → w'.users ≡ (register codec bcrypt (some body) w).1.users
    → w'.password_accounts ≡ (register codec bcrypt (some body) w).1.password_accounts
    → Calm w'
    → (again : Login) × ((password_login codec bcrypt
          (some (record { email = body.email; password = body.password }))
          w').0
        ≡ ok again)
      × (again.user.id ≡ login.user.id)
password_login-register codec bcrypt body w w' login law h u p c =
    let (hash, g, found, dark) = register-Created codec bcrypt body w login h in
    let (r, q, i) = found in
    let (again, a, j) =
      login_found codec bcrypt body w' r hash c (ground (arith, q, u, p)) (law hash g)
        (ap is_blank i ∙ dark) in
    (again, a, j ∙ i)
