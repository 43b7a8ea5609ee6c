-- ===== src/Database/Users.antt =====
-- The accounts of internal/database/store.go: password and OAuth users, and reading a user.
pub mod Effects
use be_miawai.Base.{
  ℕ, List, [], ◌∷◌, ◌++◌, Option, none, some, Bool, true, false, not, ◌&&◌, ◌||◌, Text, codes,
  text_eq, is_blank, if◌then◌else◌,
}
use be_miawai.Base.Strings.{trim_space, folded, before}
use be_miawai.Models.{User, OAuthProfile}
use be_miawai.Database.World.{
  UserRow, OAuthAccount, PasswordRow, World, Error, Query, no_rows, constraint,
  email_already_exists, email_required, provider_required, ok, err, pure, raise, raise_if, gets,
  modify, ◌>>=◌, ◌>>◌, statement, transaction, new_id, find_user,
}
use be_miawai.Database.Status.{no_status}
use be_miawai.Database.Subscriptions.{free, refresh_user_entitlement}

-- `scanUser`
abbrev pub scan_user : UserRow → User
scan_user r = record {
  id = r.id;
  email = r.email;
  name = r.name;
  avatar_url = r.avatar_url;
  plan = r.plan;
  role = [];
  access = [];
  subscription_status = r.subscription_status;
  entitled_until = r.entitled_until;
  created_at = r.created_at;
}

-- `QueryRow(…).Scan(…)`
abbrev pub or_no_rows : {A : Type 0} → Option A → Query A
or_no_rows none = raise no_rows
or_no_rows (some a) = pure a

abbrev pub is_some : {A : Type 0} → Option A → Bool
is_some none = false
is_some (some a) = true

-- `SELECT id FROM users WHERE email = $1`
unfoldable pub id_by_email : Text → List UserRow → Option Text
id_by_email email [] = none
id_by_email email (u ∷ us) = if text_eq u.email email then some u.id else id_by_email email us

-- `INSERT INTO users (id, email, name, avatar_url)`, the other columns by their defaults.
unfoldable pub insert_user : Text → Text → Text → Text → Query (Unit {0})
insert_user id email name avatar_url = do
  statement
  clash ← gets (λ w. is_some (find_user id w.users) || is_some (id_by_email email w.users))
  raise_if clash constraint
  modify (λ w. record w {
    users =
        record {
          id = id;
          email = email;
          name = name;
          avatar_url = avatar_url;
          plan = free;
          subscription_status = no_status;
          entitled_until = none;
          created_at = w.now;
        }
        ∷ w.users;
  })

-- `SELECT … FROM users WHERE id = $1`
unfoldable pub select_user : Text → Query User
select_user id = do
  statement
  r ← gets (λ w. find_user id w.users)
  row ← or_no_rows r
  pure (scan_user row)

-- Does another user's password account hold the email?
unfoldable pub email_taken : Text → Text → List PasswordRow → Bool
email_taken user_id email [] = false
email_taken user_id email (p ∷ ps) =
    (text_eq p.email email && not (text_eq p.user_id user_id)) || email_taken user_id email ps

unfoldable pub has_password : Text → List PasswordRow → Bool
has_password user_id [] = false
has_password user_id (p ∷ ps) = text_eq p.user_id user_id || has_password user_id ps

unfoldable pub replace_password : PasswordRow → List PasswordRow → List PasswordRow
replace_password row [] = []
replace_password row (p ∷ ps) =
    (if text_eq p.user_id row.user_id then row else p) ∷ replace_password row ps

unfoldable pub create_password_user : Text → Text → Text → Query User
unfolding insert_user select_user has_password email_taken
create_password_user email name password_hash = transaction do
  statement
  existing ← gets (λ w. id_by_email email w.users)
  raise_if (is_some existing) email_already_exists
  user_id ← new_id (codes "usr")
  insert_user user_id email name []
  statement
  clash ← gets (λ w.
      has_password user_id w.password_accounts || email_taken user_id email w.password_accounts)
  raise_if clash constraint
  modify (λ w. record w {
    password_accounts =
        record { user_id = user_id; email = email; password_hash = password_hash }
        ∷ w.password_accounts;
  })
  select_user user_id

-- The account that the email has, or a new one.
unfoldable pub id_or_insert : Text → Text → Text → Query Text
unfolding insert_user
id_or_insert email name avatar_url = do
  statement
  existing ← gets (λ w. id_by_email email w.users)
  elim existing [
    | some user_id ↦ pure user_id
    | none ↦ do
      user_id ← new_id (codes "usr")
      insert_user user_id email name avatar_url
      pure user_id
  ]

unfoldable pub ensure_password_user : Text → Text → Text → Query User
unfolding id_or_insert select_user has_password email_taken replace_password
ensure_password_user email₀ name₀ password_hash =
    let email = folded email₀ in
    let trimmed = trim_space name₀ in
    let name = if is_blank trimmed then before b'@' email else trimmed in
    raise_if (is_blank email) email_required
    >> transaction do
      user_id ← id_or_insert email name []
      statement
      clash ← gets (λ w. email_taken user_id email w.password_accounts)
      raise_if clash constraint
      modify (λ w.
          let row : PasswordRow = record {
            user_id = user_id;
            email = email;
            password_hash = password_hash;
          } in
          record w {
            password_accounts =
                if has_password user_id w.password_accounts
                then replace_password row w.password_accounts
                else row ∷ w.password_accounts;
          })
      select_user user_id

-- `SELECT … FROM password_accounts pa JOIN users u ON u.id = pa.user_id WHERE pa.email = $1`
unfoldable pub password_account : Text → List UserRow → List PasswordRow → Option (UserRow × Text)
password_account email users [] = none
password_account email users (p ∷ ps) =
    let rest = password_account email users ps in
    if text_eq p.email email
    then elim (find_user p.user_id users) [ none ↦ rest | some u ↦ some (u, p.password_hash) ]
    else rest

unfoldable pub find_password_account_by_email : Text → Query (User × Text)
unfolding password_account
find_password_account_by_email email = do
  statement
  r ← gets (λ w. password_account email w.users w.password_accounts)
  found ← or_no_rows r
  pure (scan_user found.0, found.1)

-- `SELECT user_id FROM oauth_accounts WHERE provider = $1 AND provider_user_id = $2`
unfoldable pub oauth_user : Text → Text → List OAuthAccount → Option Text
oauth_user provider provider_user_id [] = none
oauth_user provider provider_user_id (a ∷ as_) =
    if text_eq a.provider provider && text_eq a.provider_user_id provider_user_id
    then some a.user_id
    else oauth_user provider provider_user_id as_

-- `COALESCE(NULLIF($2, ''), name)`
abbrev pub coalesce : Text → Text → Text
coalesce [] old = old
coalesce (c ∷ s) old = c ∷ s

abbrev pub with_profile : Text → Text → UserRow → UserRow
with_profile name avatar_url u = record u {
  name = coalesce name u.name;
  avatar_url = coalesce avatar_url u.avatar_url;
}

-- `UPDATE users SET name = …, avatar_url = … WHERE id = $1`
unfoldable pub set_profile : Text → Text → Text → List UserRow → List UserRow
set_profile user_id name avatar_url [] = []
set_profile user_id name avatar_url (u ∷ us) =
    (if text_eq u.id user_id then with_profile name avatar_url u else u)
    ∷ set_profile user_id name avatar_url us

-- The user of the provider's account; a first login links the account to the user with its email.
-- The `ON CONFLICT` of the insertion cannot fire here: the same transaction found no such row.
unfoldable pub link_oauth : OAuthProfile → Query Text
unfolding id_or_insert oauth_user
link_oauth profile = do
  statement
  known ← gets (λ w. oauth_user profile.provider profile.provider_user_id w.oauth_accounts)
  elim known [
    | some user_id ↦ pure user_id
    | none ↦ do
      user_id ← id_or_insert profile.email profile.name profile.avatar_url
      new_id (codes "oa")
      statement
      modify (λ w. record w {
        oauth_accounts =
            record {
              user_id = user_id;
              provider = profile.provider;
              provider_user_id = profile.provider_user_id;
              email = profile.email;
            }
            ∷ w.oauth_accounts;
      })
      pure user_id
  ]

-- An account without an email gets a local one.
abbrev pub with_email : OAuthProfile → OAuthProfile
with_email p = record p {
  email =
      if is_blank p.email
      then p.provider ++ b':' ∷ (p.provider_user_id ++ codes "@miaw.local")
      else p.email;
}

-- The end of a login: the profile's name and picture, and the account.
abbrev pub refresh_profile : OAuthProfile → Text → Query User
refresh_profile profile user_id = do
  statement
  modify (λ w. record w { users = set_profile user_id profile.name profile.avatar_url w.users })
  select_user user_id

unfoldable pub find_or_create_oauth_user : OAuthProfile → Query User
unfolding link_oauth select_user set_profile
find_or_create_oauth_user profile =
    raise_if (is_blank profile.provider || is_blank profile.provider_user_id) provider_required
    >> transaction do
      user_id ← link_oauth (with_email profile)
      statement
      modify (λ w. record w { users = set_profile user_id profile.name profile.avatar_url w.users })
      select_user user_id

unfoldable pub get_user_by_id : Text → Query User
unfolding select_user
get_user_by_id id = do refresh_user_entitlement id; select_user id
