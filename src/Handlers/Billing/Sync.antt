-- ===== src/Handlers/Billing/Sync.antt =====
-- What `syncCheckout` and `verifyAndroidPurchase` of internal/handlers/server.go grant.
use be_miawai.Base.{
  ◌∷◌, [], ◌≡◌, Text, Option, some, codes, one_of, true, text_eq, is_blank, false, sym, ap, refl,
  inr, arith, text_eq_iff, ℕ, ◌<◌, ◌∙◌, subst,
}
use be_miawai.Handlers.Billing.Settle.{
  paid_until, stepped, with_status, normalize-active, period_end_later,
}
use be_miawai.Database.Subscriptions.Effects.{upsert_subscription-refresh, upsert_subscription-pro}
use be_miawai.Handlers.Billing.{
  settle_payment, sync_checkout, normalize_midtrans_status, is_subscription_product,
  verify_purchase_token, verify_android_purchase, Purchase,
}
use be_miawai.Database.Payments.{
  update_payment_transaction_status, get_payment_by_order_id, find_payment,
  create_payment_transaction,
}
use be_miawai.Database.Users.{get_user_by_id, select_user, scan_user}
use be_miawai.Base.Strings.{has_prefix, trim_space}
use be_miawai.Models.{PaymentTransaction, User}
use be_miawai.Database.World.{World, UserRow, Calm, find_user, ok, later_faults}
use be_miawai.Handlers.Access.{decorate_user_access}
use be_miawai.Handlers.Calendar.{subscription_period_end}
use be_miawai.Database.Status.{active}
use be_miawai.Database.Subscriptions.{upsert_subscription, refresh_user_entitlement}

get_user-settled :
    (order_id : Text) (t : PaymentTransaction) (status : Text) (w : World) (u : UserRow)
    → Calm w
    → find_user t.user_id w.users ≡ some u
    → one_of status (codes "settlement" ∷ codes "capture" ∷ []) ≡ true
    → is_subscription_product t.product_id ≡ true
    → ((settle_payment order_id t status w).0 ≡ ok tt)
      × ((get_user_by_id t.user_id (settle_payment order_id t status w).1).0
          ≡ ok (scan_user (paid_until (some (subscription_period_end w.now t.product_id)) u)))
unfolding settle_payment update_payment_transaction_status get_user_by_id select_user
get_user-settled order_id t status w u c f s p =
    let end = some (subscription_period_end w.now t.product_id) in
    let paid =
      upsert_subscription-pro t.user_id (codes "midtrans") t.product_id active end
        (with_status order_id status w) (ap later_faults c) f (inr normalize-active)
        (period_end_later w.now t.product_id) in
    let kept =
      upsert_subscription-refresh t.user_id (codes "midtrans") t.product_id active end
        (with_status order_id status w) (ap later_faults c) f (inr normalize-active)
        (period_end_later w.now t.product_id) in
    (ground (arith, paid), ground (arith, paid, kept, normalize-active))

settled-dark :
    (s : Text) → one_of s (codes "settlement" ∷ codes "capture" ∷ []) ≡ true → is_blank s ≡ false
unfolding one_of text_eq
settled-dark [] h = sym h
settled-dark (c ∷ s) h = refl

-- Where no statement fails, and the payment service reports an order of a subscription product as
-- settled or captured, `syncCheckout` by its buyer answers with the buyer as a pro user until
-- `subscriptionPeriodEnd` at the instant of the call, whatever status the order had in the table
-- already.
pub sync_checkout-renews :
    (gateway : Text → Option (Text × Text)) (user : User) (order_id : Text) (w : World)
    (t : PaymentTransaction) (u : UserRow) (answer : Text × Text)
    → Calm w
    → trim_space order_id ≡ order_id
    → has_prefix order_id (codes "MIAW-") ≡ true
    → find_payment order_id w.payments ≡ some t
    → t.user_id ≡ user.id
    → gateway order_id ≡ some answer
    → one_of
        (normalize_midtrans_status answer.0 answer.1)
        (codes "settlement" ∷ codes "capture" ∷ [])
      ≡ true
    → is_subscription_product t.product_id ≡ true
    → find_user user.id w.users ≡ some u
    → (sync_checkout gateway user (some order_id) w).0
      ≡ ok (
        normalize_midtrans_status answer.0 answer.1,
        decorate_user_access
            (scan_user (paid_until (some (subscription_period_end w.now t.product_id)) u)),
      )
unfolding sync_checkout get_payment_by_order_id has_prefix
sync_checkout-renews gateway user [] w t u answer c r p f o g s q k = cc
sync_checkout-renews gateway user (x ∷ order_id) w t u answer c r p f o g s q k =
    let status = normalize_midtrans_status answer.0 answer.1 in
    let settled =
      get_user-settled (x ∷ order_id) t status (stepped w) u (ap later_faults c) (rw o k) s q in
    ground (arith, r, settled, settled-dark status s, text_eq_iff t.user_id user.id)

purchase_end_later :
    (now : ℕ) (product_id token status : Text) (end : ℕ)
    → verify_purchase_token now product_id token ≡ some (status, end)
    → (status ≡ active) × (now < end)
unfolding verify_purchase_token subscription_period_end
purchase_end_later now product_id token status end h =
    (ground arith, ground (arith, period_end_later now product_id))

upsert_subscription-Calm :
    (user_id platform product_id status : Text) (end : Option ℕ) (w : World)
    → Calm w
    → Calm (upsert_subscription user_id platform product_id status end w).1
unfolding upsert_subscription refresh_user_entitlement
upsert_subscription-Calm user_id platform product_id status end w c = ground arith

-- The world in which an Android purchase is recorded.
abbrev pub after_payment : PaymentTransaction → World → World
after_payment t w = (create_payment_transaction t w).1

pub after_payment-kept :
    (t : PaymentTransaction) (w : World)
    → ((after_payment t w).users ≡ w.users)
      × ((after_payment t w).now ≡ w.now)
      × (Calm w → Calm (after_payment t w))
unfolding create_payment_transaction
after_payment-kept t w = (ground arith, ground arith, λ c. ground arith)

-- A valid purchase makes its sender a pro user, whatever payments there are.
pub verify_android_purchase-pro :
    (package_name : Text) (user : User) (body : Purchase) (w : World) (u : UserRow) (end : ℕ)
    → Calm w
    → body.package_name ≡ package_name
    → verify_purchase_token w.now body.product_id body.purchase_token ≡ some (active, end)
    → find_user user.id w.users ≡ some u
    → ((verify_android_purchase package_name user (some body) w).0 ≡ ok tt)
      × (find_user user.id (verify_android_purchase package_name user (some body) w).1.users
          ≡ some (paid_until (some end) u))
      × Calm (verify_android_purchase package_name user (some body) w).1
unfolding verify_android_purchase
verify_android_purchase-pro package_name user body w u end c n r f =
    let t : PaymentTransaction = record {
      id = [];
      user_id = user.id;
      order_id = body.purchase_token;
      platform = codes "google_play";
      product_id = body.product_id;
      amount = 0;
      currency = codes "IDR";
      status = codes "settlement";
    } in
    let v = after_payment t w in
    let (users, now, calm) = after_payment-kept t w in
    let later = (purchase_end_later w.now body.product_id body.purchase_token active end r).1 in
    let paid =
      upsert_subscription-pro user.id (codes "google_play") body.product_id active (some end) v
        (calm c) (ap (find_user user.id) users ∙ f) (inr normalize-active)
        (subst (λ m. m < end) (sym now) later) in
    let kept =
      upsert_subscription-Calm user.id (codes "google_play") body.product_id active (some end) v
        (calm c) in
    (
      ground (arith, paid, n, r, text_eq_iff body.package_name package_name),
      ground (arith, paid, normalize-active, n, r, text_eq_iff body.package_name package_name),
      ground (arith, kept, n, r, text_eq_iff body.package_name package_name),
    )
