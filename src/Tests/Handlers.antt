-- ===== src/Tests/Handlers.antt =====
-- The theorems on the handlers at concrete inputs.
use be_miawai.Base.{
  ◌≡◌, codes, ◌∷◌, text_eq, [], ◌||◌, true, one_of, some, ◌++◌, none, refl, text_eq-apart, Option,
  ◌≢◌, ap, Text, sym, ◌∙◌,
}
use be_miawai.Base.Strings.{
  trim_space, trim_left, trim_right, snoc_trim, is_space, lower, folded, has_prefix,
}
use be_miawai.Tests.Sample.{sample, ada, bob}
use be_miawai.Handlers.Access.{has_access, apply_session_access, decorate_user_access}
use be_miawai.Models.{SessionIdentity, User, PaymentTransaction}
use be_miawai.Handlers.Billing.{
  is_subscription_product, normalize_midtrans_status, Notification, Purchase, create_checkout,
  verify_purchase_token, verify_android_purchase, checkout_product_amount, midtrans_webhook,
  sync_checkout, checkout_of,
}
use be_miawai.Base.Lists.{contains}
use be_miawai.Database.Users.{scan_user}
use be_miawai.Database.World.{World, find_user, ok, UserRow}
use be_miawai.Handlers.Calendar.{monthly_product, subscription_period_end, add_month}
use be_miawai.Handlers.Access.Laws.{apply_session_access-role, apply_session_access-has_access}
use be_miawai.Database.Payments.{find_payment, create_payment_transaction}
use be_miawai.Handlers.Billing.Lifecycle.{midtrans_webhook-authentic, checkout_pays}
use be_miawai.Handlers.Billing.Settle.{paid_until}
use be_miawai.Handlers.Billing.Sync.{sync_checkout-renews}
use be_miawai.Handlers.Billing.Guard.{verify_android_purchase-reused}
use be_miawai.Database.Subscriptions.{pro, free}

abbrev ada_user : User
ada_user = scan_user ada

abbrev bob_user : User
bob_user = scan_user bob

abbrev session : SessionIdentity
session = record {
  user_id = codes "ada";
  email = codes "ada@x.io";
  role = codes "admin";
  access = codes "tools:read" ∷ [];
}

apply_session_access-has_access_example :
    has_access (apply_session_access ada_user session) (codes "tools:read")
    ≡ contains (decorate_user_access ada_user).access (codes "tools:read")
      || contains session.access (codes "tools:read")
apply_session_access-has_access_example =
    apply_session_access-has_access ada_user session (codes "tools:read") refl

apply_session_access-role_example :
    (apply_session_access ada_user session).role ≡ (decorate_user_access ada_user).role
apply_session_access-role_example = apply_session_access-role ada_user session

-- The order that the sample's supply of random texts gives, and its settlement.
abbrev notice : Notification
notice = record {
  order_id = codes "MIAW-ord_r0";
  transaction_status = codes "settlement";
  fraud_status = codes "accept";
  status_code = codes "200";
  gross_amount = codes "59000";
  signature_key = codes "MIAW-ord_r020059000key";
}

abbrev ordered : World
unfolding create_checkout
ordered =
    (create_checkout (codes "client") (λ o p a. true) ada_user (some monthly_product) sample).1

checkout_pays_example :
    ((midtrans_webhook (λ s. s) (codes "key") (some notice) ordered).0 ≡ ok tt)
    × (find_user ada_user.id (midtrans_webhook (λ s. s) (codes "key") (some notice) ordered).1.users
        ≡ some (paid_until (some (subscription_period_end ordered.now monthly_product)) ada))
unfolding create_checkout text_eq find_user one_of folded trim_space trim_left trim_right snoc_trim
    is_space lower checkout_product_amount create_payment_transaction find_payment
    normalize_midtrans_status is_subscription_product
checkout_pays_example =
    checkout_pays (codes "client") (λ o p a. true) (λ s. s) (codes "key") ada_user monthly_product
      sample ordered notice ada refl refl refl refl refl refl refl

abbrev plan_in : Option UserRow → Text
plan_in none = []
plan_in (some u) = u.plan

-- The settlement makes the buyer a pro user.
ordered_plan :
    plan_in (
      find_user
        (codes "ada")
        (midtrans_webhook (λ s. s) (codes "key") (some notice) ordered).1.users)
    ≡ pro
unfolding create_checkout text_eq find_user one_of folded trim_space trim_left trim_right snoc_trim
    is_space lower checkout_product_amount create_payment_transaction find_payment
    normalize_midtrans_status is_subscription_product
ordered_plan =
    ap plan_in
      (checkout_pays (codes "client") (λ o p a. true) (λ s. s) (codes "key") ada_user
        monthly_product sample ordered notice ada refl refl refl refl refl refl refl).1

changed :
    find_user (codes "ada") (midtrans_webhook (λ s. s) (codes "key") (some notice) ordered).1.users
    ≢ find_user (codes "ada") ordered.users
unfolding create_checkout find_user text_eq checkout_product_amount trim_space trim_right trim_left
    is_space snoc_trim create_payment_transaction find_payment
changed e = text_eq-apart pro free refl (sym ordered_plan ∙ ap plan_in e)

midtrans_webhook-authentic_example :
    (t : PaymentTransaction) × (find_payment notice.order_id ordered.payments ≡ some t)
    × (t.user_id ≡ codes "ada")
    × (notice.order_id ++ (notice.status_code ++ (notice.gross_amount ++ codes "key"))
        ≡ notice.signature_key)
unfolding create_checkout find_user text_eq
midtrans_webhook-authentic_example =
    midtrans_webhook-authentic (λ s. s) (codes "key") notice ordered (codes "ada") changed

sync_checkout-renews_example :
    (sync_checkout
      (λ o. some (codes "settlement", codes "accept"))
      ada_user
      (some notice.order_id)
      ordered).0
    ≡ ok (
      normalize_midtrans_status (codes "settlement") (codes "accept"),
      decorate_user_access
          (scan_user (paid_until (some (subscription_period_end ordered.now monthly_product)) ada)),
    )
unfolding create_checkout text_eq find_user one_of folded trim_space trim_left trim_right snoc_trim
    is_space lower checkout_product_amount create_payment_transaction find_payment
    normalize_midtrans_status has_prefix is_subscription_product
sync_checkout-renews_example =
    sync_checkout-renews (λ o. some (codes "settlement", codes "accept")) ada_user notice.order_id
      ordered
      (record (checkout_of (codes "ada") (codes "MIAW-ord_r0") monthly_product 59000) {
        id = codes "ptx_r1";
      })
      ada (codes "settlement", codes "accept") refl refl refl refl refl refl refl refl refl

abbrev purchase : Purchase
purchase = record {
  purchase_token = codes "mock_1";
  product_id = monthly_product;
  package_name = codes "io.miaw";
}

verify_android_purchase-reused_example :
    ((verify_android_purchase (codes "io.miaw") ada_user (some purchase) sample).0 ≡ ok tt)
    × ((verify_android_purchase
          (codes "io.miaw")
          bob_user
          (some purchase)
          (verify_android_purchase (codes "io.miaw") ada_user (some purchase) sample).1).0
        ≡ ok tt)
    × (find_user bob_user.id
          (verify_android_purchase
            (codes "io.miaw")
            bob_user
            (some purchase)
            (verify_android_purchase (codes "io.miaw") ada_user (some purchase) sample).1).1.users
        ≡ some (paid_until (some (add_month 1000)) bob))
unfolding verify_purchase_token has_prefix text_eq find_user
verify_android_purchase-reused_example =
    verify_android_purchase-reused (codes "io.miaw") ada_user bob_user purchase sample ada bob
      (add_month 1000) refl refl refl refl refl (text_eq-apart (codes "bob") (codes "ada") refl)
