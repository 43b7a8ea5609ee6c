-- ===== src/Handlers/Billing/Guard.antt =====
-- Who may record a subscription, and what a purchase token is good for
-- (internal/handlers/server.go).
use be_miawai.Base.{
  ◌≡◌, Text, text_eq, Option, ℕ, none, arith, ◌≢◌, false, some, Option-cases, inl, inr, ap, refl,
  [], ◌∙◌, codes,
}
use be_miawai.Handlers.Access.Laws.{apply_session_access-has_access}
use be_miawai.Handlers.Billing.Sync.{verify_android_purchase-pro, after_payment, after_payment-kept}
use be_miawai.Handlers.Access.{
  decorate_user_access, lookup_dev_account, billing_write, apply_session_access,
}
use be_miawai.Models.{SessionIdentity}
use be_miawai.Handlers.Billing.{
  platform_subscription, verify_android_purchase, Purchase, SubscriptionBody, verify_purchase_token,
}
use be_miawai.Database.Subscriptions.{upsert_subscription, refresh_user_entitlement}
use be_miawai.Models.{User, PaymentTransaction}
use be_miawai.Base.Lists.{contains}
use be_miawai.Database.World.{World, UserRow, find_user, Calm, err, ok}
use be_miawai.Database.Status.{active}
use be_miawai.Handlers.Reply.{reply}
use be_miawai.Handlers.Billing.Settle.{paid_until}
use be_miawai.Database.Subscriptions.Effects.{upsert_subscription-others}

member-decorated :
    (user : User)
    → lookup_dev_account user.email ≡ none
    → contains (decorate_user_access user).access billing_write ≡ false
unfolding decorate_user_access contains text_eq
member-decorated user n = ground (arith, n)

-- A user without one of the built-in accounts, whose session lists no permission to write billing,
-- can record no subscription: `platformSubscription` answers 403 to every body and leaves the
-- world as it is.
pub platform_subscription-member :
    (user : User) (identity : SessionIdentity) (decoded : Option SubscriptionBody) (w : World)
    → lookup_dev_account user.email ≡ none
    → contains identity.access billing_write ≡ false
    → platform_subscription (apply_session_access user identity) decoded w
      ≡ (err (reply 403 "billing updates are not allowed for this role"), w)
unfolding platform_subscription
platform_subscription-member user identity decoded w n c = ground (
  arith,
  apply_session_access-has_access user identity billing_write refl,
  member-decorated user n,
  c,
)

upsert_subscription-now :
    (user_id platform product_id status : Text) (end : Option ℕ) (w : World)
    → (upsert_subscription user_id platform product_id status end w).1.now ≡ w.now
unfolding upsert_subscription refresh_user_entitlement
upsert_subscription-now user_id platform product_id status end w = ground arith

verify_android_purchase-others :
    (package_name : Text) (user : User) (body : Purchase) (w : World) (v : Text)
    → v ≢ user.id
    → (find_user v (verify_android_purchase package_name user (some body) w).1.users
        ≡ find_user v w.users)
      × ((verify_android_purchase package_name user (some body) w).1.now ≡ w.now)
unfolding verify_android_purchase
verify_android_purchase-others package_name user body w v d =
    elim (Option-cases (verify_purchase_token w.now body.product_id body.purchase_token)) [
      | inl e ↦ (ground arith, ground arith)
      | inr (r, e) ↦
          let t : PaymentTransaction = record {
            id = [];
            user_id = user.id;
            order_id = body.purchase_token;
            platform = codes "google_play";
            product_id = body.product_id;
            amount = 0;
            currency = codes "IDR";
            status = codes "settlement";
          } in
          let v' = after_payment t w in
          let (users, now, calm) = after_payment-kept t w in
          let same =
            upsert_subscription-others user.id (codes "google_play") body.product_id r.0 (some r.1)
              v' v d
            ∙ ap (find_user v) users in
          let then_now =
            upsert_subscription-now user.id (codes "google_play") body.product_id r.0 (some r.1) v'
            ∙ now in
          (ground (arith, e, same), ground (arith, e, then_now))
    ]

-- Where no statement fails: two users who send the same purchase token one after the other, with
-- the right package and a token that the verification accepts, are both answered with success, and
-- the second is a pro user until the end that the verification gives.
pub verify_android_purchase-reused :
    (package_name : Text) (a b : User) (body : Purchase) (w : World) (u u' : UserRow) (end : ℕ)
    → Calm w
    → body.package_name ≡ package_name
    → verify_purchase_token w.now body.product_id body.purchase_token ≡ some (active, end)
    → find_user a.id w.users ≡ some u
    → find_user b.id w.users ≡ some u'
    → b.id ≢ a.id
    → ((verify_android_purchase package_name a (some body) w).0 ≡ ok tt)
      × ((verify_android_purchase package_name b
            (some body)
            (verify_android_purchase package_name a (some body) w).1).0
          ≡ ok tt)
      × (find_user b.id
            (verify_android_purchase package_name b
              (some body)
              (verify_android_purchase package_name a (some body) w).1).1.users
          ≡ some (paid_until (some end) u'))
verify_android_purchase-reused package_name a b body w u u' end c n r f g d =
    let w1 = (verify_android_purchase package_name a (some body) w).1 in
    let first = verify_android_purchase-pro package_name a body w u end c n r f in
    let (same, now) = verify_android_purchase-others package_name a body w b.id d in
    let second =
      verify_android_purchase-pro package_name b body w1 u' end first.2 n
        (ap (λ m. verify_purchase_token m body.product_id body.purchase_token) now ∙ r)
        (same ∙ g) in
    (first.0, second.0, second.1)
