-- ===== src/Handlers/Accounts/Laws.antt =====
-- What registration, login, the trial and the session test promise (internal/handlers/server.go).
use be_miawai.Base.{
  ◌≡◌, ℕ, ◌+◌, ◌*◌, Option-cases, ◌<◌, some, inl, inr, arith, false, Text, ap, codes, one_of,
  text_eq, refl, ◌⊎◌,
}
use be_miawai.Auth.Laws.{IsSigned, parse_session_sound}
use be_miawai.Handlers.Accounts.{require_user, session_token, start_trial, identity_or, equal_fold}
use be_miawai.Database.Subscriptions.Effects.{upsert_subscription-pro, upsert_subscription-refresh}
use be_miawai.Database.Users.Effects.{select_user-id}
use be_miawai.Database.World.{Result, UserRow, World, ok, Calm, err, find_user, later_faults}
use be_miawai.Database.Users.{get_user_by_id, select_user, scan_user}
use be_miawai.Handlers.Access.{apply_session_access, decorate_user_access}
use be_miawai.Auth.Session.{SessionCodec, parse_session}
use be_miawai.Database.Subscriptions.{
  start_trial_subscription, pro, hour, refresh_user_entitlement, trial_used, trial_product,
}
use be_miawai.Database.Status.{normalize_subscription_status, trialing}
use be_miawai.Auth.{AuthError}
use be_miawai.Base.Strings.{folded, trim_space, trim_left, trim_right, snoc_trim, is_space, lower}
use be_miawai.Models.{SessionIdentity, User}

identity_or-some :
    (r : Result AuthError SessionIdentity) (identity : SessionIdentity)
    → identity_or r ≡ some identity
    → r ≡ ok identity
identity_or-some (ok i) identity h = ground (arith, h)
identity_or-some (err e) identity h = cc

pub get_user_by_id-id :
    (id : Text) (w : World) (u : User) → (get_user_by_id id w).0 ≡ ok u → u.id ≡ id
unfolding get_user_by_id
get_user_by_id-id id w u h = ground (arith, select_user-id id (refresh_user_entitlement id w).1 u)

apply_session_access-id :
    (user : User) (identity : SessionIdentity) → (apply_session_access user identity).id ≡ user.id
unfolding apply_session_access decorate_user_access
apply_session_access-id user identity = ground arith

-- The identity of the request's token.
abbrev pub Identifies : SessionCodec → Text → World → User → Type 0
Identifies codec token w u =
    (identity : SessionIdentity) × (parse_session codec w.now token ≡ ok identity)
    × (u.id ≡ identity.user_id)

pub Result-cases :
    {E A : Type 0} (r : Result E A) → ((a : A) × (r ≡ ok a)) ⊎ ((e : E) × (r ≡ err e))
Result-cases (ok a) = inl (a, refl)
Result-cases (err e) = inr (e, refl)

require_user-id :
    (codec : SessionCodec) (authorization cookie : Text) (w : World) (u : User)
    (identity : SessionIdentity)
    → (require_user codec authorization cookie w).0 ≡ ok u
    → identity_or (parse_session codec w.now (session_token authorization cookie)) ≡ some identity
    → u.id ≡ identity.user_id
unfolding require_user
require_user-id codec authorization cookie w u identity h e =
    elim (Result-cases (get_user_by_id identity.user_id w).0) [
      | inl (base, g) ↦ ground (
        arith,
        h,
        e,
        g,
        get_user_by_id-id identity.user_id w base g,
        apply_session_access-id base identity,
      )
      | inr (f, g) ↦ absurd (ground (arith, h, e, g))
    ]

require_user-Identifies :
    (codec : SessionCodec) (authorization cookie : Text) (w : World) (u : User)
    → (require_user codec authorization cookie w).0 ≡ ok u
    → Identifies codec (session_token authorization cookie) w u
unfolding require_user
require_user-Identifies codec authorization cookie w u h =
    elim (Option-cases
      (identity_or (parse_session codec w.now (session_token authorization cookie)))) [
        | inl e ↦ absurd (ground (arith, h, e))
        | inr (identity, e) ↦ (
          identity,
          identity_or-some (parse_session codec w.now (session_token authorization cookie)) identity
              e,
          require_user-id codec authorization cookie w u identity h e,
        )
      ]

-- Where `requireUser` lets a request through, its token carries its own signature and parses to an
-- identity, and the user that the guarded handler gets has the id of that identity, whatever
-- statements fail.
pub require_user_sound :
    (codec : SessionCodec) (authorization cookie : Text) (w : World) (u : User)
    → (require_user codec authorization cookie w).0 ≡ ok u
    → IsSigned codec.mac (session_token authorization cookie)
      × Identifies codec (session_token authorization cookie) w u
require_user_sound codec authorization cookie w u h =
    let (identity, p, i) = require_user-Identifies codec authorization cookie w u h in
    (
      (parse_session_sound codec w.now (session_token authorization cookie) identity p).0,
      require_user-Identifies codec authorization cookie w u h,
    )

-- The row of a user on trial.
abbrev pub on_trial : ℕ → UserRow → UserRow
on_trial now r = record r {
  plan = pro;
  subscription_status = trialing;
  entitled_until = some (now + 72 * hour);
}

normalize-trialing : normalize_subscription_status trialing ≡ trialing
unfolding normalize_subscription_status folded trim_space trim_left trim_right snoc_trim is_space
    lower one_of text_eq
normalize-trialing = refl

-- Where no statement fails, a user who is there, has had no trial, and is not on trial or active
-- already, is answered by `startTrial` as a pro user on trial until 72 hours from then.
pub start_trial_grants :
    (user : User) (w : World) (r : UserRow)
    → Calm w
    → find_user user.id w.users ≡ some r
    → trial_used user.id w.subscriptions ≡ false
    → equal_fold user.subscription_status (codes "active") ≡ false
    → equal_fold user.subscription_status (codes "trialing") ≡ false
    → (start_trial user w).0 ≡ ok (decorate_user_access (scan_user (on_trial w.now r)))
unfolding start_trial start_trial_subscription get_user_by_id select_user
start_trial_grants user w r c f t a b =
    let end = some (w.now + 72 * hour) in
    let later : w.now < w.now + 72 * hour = ground arith in
    let v : World = record w { faults = later_faults w.faults } in
    let paid =
      upsert_subscription-pro user.id (codes "miaw") trial_product trialing end v
        (ap later_faults c) f (inl normalize-trialing) later in
    let kept =
      upsert_subscription-refresh user.id (codes "miaw") trial_product trialing end v
        (ap later_faults c) f (inl normalize-trialing) later in
    ground (arith, paid, kept, normalize-trialing)
