-- ===== src/Database/Users/Effects.antt =====
-- What the account operations do to the tables.
use be_miawai.Base.{
  ◌≡◌, arith, List, [], ◌∷◌, none, some, Text, text_eq_refl, text_eq_iff, refl, ◌≢◌, Option-cases,
  inl, inr, is_blank, ◌||◌, false, Bool-cases,
}
use be_miawai.Database.World.{UserRow, World, ok, Calm, find_user, Result, later_faults, resume}
use be_miawai.Database.Subscriptions.{entitlement, entitled, rows_of, refresh_user_entitlement}
use be_miawai.Database.Subscriptions.Decision.{Decision, entitlement-Decision}
use be_miawai.Database.Subscriptions.Effects.{find_user-set_entitlement}
use be_miawai.Database.Users.{
  scan_user, id_by_email, insert_user, create_password_user, get_user_by_id, id_or_insert,
  ensure_password_user, set_profile, link_oauth, find_or_create_oauth_user, OAuthProfile,
  oauth_user, User, select_user, Error, with_email, err, refresh_profile, with_profile,
}

-- Where no statement fails and the user exists, `GetUserByID` returns the user with the plan,
-- status and end that its subscriptions give, and these are the ones that the `Decision` on its
-- rows prescribes: pro by the first live row that runs, last updated first, and free where there
-- is none.
pub get_user_by_id-entitled :
    (id : Text) (w : World) {r : UserRow}
    → Calm w
    → find_user id w.users ≡ some r
    → let rows = rows_of id w.subscriptions in
      let e = entitlement w.now rows in
      ((get_user_by_id id w).0 ≡ ok (scan_user (entitled e r))) × Decision w.now rows e
unfolding get_user_by_id refresh_user_entitlement
get_user_by_id-entitled id w {r} calm found =
    let e = entitlement w.now (rows_of id w.subscriptions) in
    (
      ground (arith, find_user-set_entitlement id id e w.users r found, text_eq_refl id),
      entitlement-Decision w.now (rows_of id w.subscriptions),
    )

-- The email and the id of each user are its own.
abbrev pub IsUnique : List UserRow → Type 0
IsUnique [] = Unit
IsUnique (u ∷ us) = (find_user u.id us ≡ none) × (id_by_email u.email us ≡ none) × IsUnique us

insert_user-IsUnique :
    (id email name avatar_url : Text) (w : World)
    → IsUnique w.users
    → IsUnique (insert_user id email name avatar_url w).1.users
unfolding insert_user
insert_user-IsUnique id email name avatar_url w h = ground arith

pub create_password_user-IsUnique :
    (email name hash : Text) (w : World)
    → IsUnique w.users
    → IsUnique (create_password_user email name hash w).1.users
unfolding create_password_user
create_password_user-IsUnique email name hash w h = ground arith

id_or_insert-IsUnique :
    (email name avatar_url : Text) (w : World)
    → IsUnique w.users
    → IsUnique (id_or_insert email name avatar_url w).1.users
unfolding id_or_insert
id_or_insert-IsUnique email name avatar_url w h = ground arith

pub ensure_password_user-IsUnique :
    (email name hash : Text) (w : World)
    → IsUnique w.users
    → IsUnique (ensure_password_user email name hash w).1.users
unfolding ensure_password_user
ensure_password_user-IsUnique email name hash w h = ground arith

-- An update that leaves ids and emails alone keeps them apart.
find_user-set_profile :
    (id name avatar_url v : Text) (us : List UserRow)
    → find_user v us ≡ none
    → find_user v (set_profile id name avatar_url us) ≡ none
unfolding find_user set_profile
find_user-set_profile id name avatar_url v [] h = refl
find_user-set_profile id name avatar_url v (u ∷ us) h =
    ground (arith, find_user-set_profile id name avatar_url v us)

id_by_email-set_profile :
    (id name avatar_url v : Text) (us : List UserRow)
    → id_by_email v (set_profile id name avatar_url us) ≡ id_by_email v us
unfolding id_by_email set_profile
id_by_email-set_profile id name avatar_url v [] = refl
id_by_email-set_profile id name avatar_url v (u ∷ us) =
    ground (arith, id_by_email-set_profile id name avatar_url v us)

set_profile-IsUnique :
    (id name avatar_url : Text) (us : List UserRow)
    → IsUnique us
    → IsUnique (set_profile id name avatar_url us)
unfolding set_profile
set_profile-IsUnique id name avatar_url [] h = tt
set_profile-IsUnique id name avatar_url (u ∷ us) h = ground (
  arith,
  set_profile-IsUnique id name avatar_url us h.2,
  find_user-set_profile id name avatar_url u.id us h.0,
  id_by_email-set_profile id name avatar_url u.email us,
)

link_oauth-IsUnique :
    (p : OAuthProfile) (w : World) → IsUnique w.users → IsUnique (link_oauth p w).1.users
unfolding link_oauth
link_oauth-IsUnique p w h = ground (arith, id_or_insert-IsUnique p.email p.name p.avatar_url)

-- A login through a provider keeps the ids and the emails of the users distinct, whatever
-- statements fail.
pub find_or_create_oauth_user-IsUnique :
    (p : OAuthProfile) (w : World)
    → IsUnique w.users
    → IsUnique (find_or_create_oauth_user p w).1.users
unfolding find_or_create_oauth_user
find_or_create_oauth_user-IsUnique p w h = grind (arith, link_oauth-IsUnique, set_profile-IsUnique)

-- The id that a lookup by id finds.
pub find_user-id : (v : Text) (us : List UserRow) (u : UserRow) → find_user v us ≡ some u → u.id ≡ v
unfolding find_user
find_user-id v [] u h = cc
find_user-id v (x ∷ us) u h = ground (arith, find_user-id v us u, text_eq_iff x.id v)

pub select_user-id :
    (id : Text) (w : World) (u : User)
    → (select_user id w).0 ≡ ok u
    → (u.id ≡ id) × (find_user id (select_user id w).1.users ≢ none)
unfolding select_user
select_user-id id w u h = elim (Option-cases (find_user id w.users)) [
  | inl e ↦ ground arith
  | inr (r, e) ↦ ground (arith, find_user-id id w.users r e)
]

select_user-oauth : (id : Text) (w : World) → (select_user id w).1.oauth_accounts ≡ w.oauth_accounts
unfolding select_user
select_user-oauth id w = ground arith

-- The provider's account is linked to the user `id`.
abbrev IsLinked : OAuthProfile → Text → World → Type 0
IsLinked p id w = oauth_user p.provider p.provider_user_id w.oauth_accounts ≡ some id

abbrev Links : OAuthProfile → Result Error Text × World → Type 0
Links p (ok id, w) = IsLinked p id w
Links p (err e, w) = Unit

link_oauth-Links : (p : OAuthProfile) (w : World) → Links p (link_oauth p w)
unfolding link_oauth oauth_user id_or_insert insert_user
link_oauth-Links p w = ground (arith, text_eq_refl p.provider, text_eq_refl p.provider_user_id)

refresh_profile-IsLinked :
    (p : OAuthProfile) (r : Result Error Text × World) (u : User)
    → Links p r
    → (resume (refresh_profile p) r).0 ≡ ok u
    → IsLinked p u.id (resume (refresh_profile p) r).1
      × (find_user u.id (resume (refresh_profile p) r).1.users ≢ none)
refresh_profile-IsLinked p (err e, w) u l h = cc
refresh_profile-IsLinked p (ok id, w) u l h =
    let v : World = record w {
      faults = later_faults w.faults;
      users = set_profile id p.name p.avatar_url w.users;
    } in
    ground (arith, select_user-id id v u, select_user-oauth id v)

-- A login that succeeded leaves the provider's account linked to the user that it returned, who
-- is there.
pub find_or_create_oauth_user-IsLinked :
    (p : OAuthProfile) (w : World) (u : User)
    → (find_or_create_oauth_user p w).0 ≡ ok u
    → IsLinked p u.id (find_or_create_oauth_user p w).1
      × (find_user u.id (find_or_create_oauth_user p w).1.users ≢ none)
unfolding find_or_create_oauth_user
find_or_create_oauth_user-IsLinked p w u h =
    let v : World = record w { faults = later_faults w.faults } in
    ground (
      arith,
      refresh_profile-IsLinked (with_email p) (link_oauth (with_email p) v) u
          (link_oauth-Links (with_email p) v),
    )

find_user-set_profile_self :
    (id name avatar_url : Text) (us : List UserRow) (r : UserRow)
    → find_user id us ≡ some r
    → find_user id (set_profile id name avatar_url us) ≡ some (with_profile name avatar_url r)
unfolding find_user set_profile
find_user-set_profile_self id name avatar_url [] r h = cc
find_user-set_profile_self id name avatar_url (x ∷ us) r h =
    ground (arith, find_user-set_profile_self id name avatar_url us r)

login_provider :
    (p : OAuthProfile) (w : World) (u : User)
    → (find_or_create_oauth_user p w).0 ≡ ok u
    → (is_blank p.provider || is_blank p.provider_user_id) ≡ false
unfolding find_or_create_oauth_user
login_provider p w u h = elim (Bool-cases (is_blank p.provider || is_blank p.provider_user_id)) [
  | inl t ↦ absurd (ground arith)
  | inr f ↦ f
]

known_login :
    (p : OAuthProfile) (w : World) (id : Text) (r : UserRow)
    → (is_blank p.provider || is_blank p.provider_user_id) ≡ false
    → IsLinked p id w
    → find_user id w.users ≡ some r
    → Calm w
    → let (r', w') = find_or_create_oauth_user p w in
      (r' ≡ ok (scan_user (with_profile p.name p.avatar_url r)))
      × (w'.oauth_accounts ≡ w.oauth_accounts)
unfolding find_or_create_oauth_user
known_login p w id r named linked found calm =
    ground (arith, find_user-set_profile_self id p.name p.avatar_url w.users r found)

-- After a login through a provider's account, a later login through the same account, whatever
-- email, name and avatar the provider gives then, with the links as the first login left them, its
-- user still there and no failing statement, succeeds with the same user's id and leaves the links
-- as they were.
pub oauth_login_stable :
    (p p' : OAuthProfile) (w w' : World) (u : User) (r : UserRow)
    → (find_or_create_oauth_user p w).0 ≡ ok u
    → p'.provider ≡ p.provider
    → p'.provider_user_id ≡ p.provider_user_id
    → w'.oauth_accounts ≡ (find_or_create_oauth_user p w).1.oauth_accounts
    → find_user u.id w'.users ≡ some r
    → Calm w'
    → (u' : User) × ((find_or_create_oauth_user p' w').0 ≡ ok u')
      × (u'.id ≡ u.id)
      × ((find_or_create_oauth_user p' w').1.oauth_accounts ≡ w'.oauth_accounts)
unfolding find_or_create_oauth_user
oauth_login_stable p p' w w' u r h same_provider same_id o f calm =
    let v = (find_or_create_oauth_user p w).1 in
    let linked : IsLinked p u.id w' = rw o (find_or_create_oauth_user-IsLinked p w u h).0 in
    let linked' : IsLinked p' u.id w' = rw (same_provider, same_id) linked in
    let named : is_blank p'.provider || is_blank p'.provider_user_id ≡ false =
      rw (same_provider, same_id) (login_provider p w u h) in
    let again = known_login p' w' u.id r named linked' f calm in
    (
      scan_user (with_profile p'.name p'.avatar_url r),
      again.0,
      find_user-id u.id w'.users r f,
      again.1,
    )
