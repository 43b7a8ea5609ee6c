-- ===== src/Handlers/Billing.antt =====
-- The billing handlers of internal/handlers/server.go, with what they use of internal/payment.
pub mod Settle
pub mod Lifecycle
pub mod Sync
pub mod Guard
use be_miawai.Base.{
  ℕ, List, [], ◌∷◌, ◌++◌, Option, none, some, Bool, true, false, not, ◌&&◌, ◌||◌, Text, codes,
  text_eq, one_of, is_blank, if◌then◌else◌,
}
use be_miawai.Base.Strings.{trim_space, folded, has_prefix}
use be_miawai.Models.{User, PaymentTransaction}
use be_miawai.Database.World.{World, Error, no_rows, ok, err, pure, gets, ◌>>=◌, ◌>>◌, new_id}
use be_miawai.Database.Subscriptions.{upsert_subscription}
use be_miawai.Database.Users.{get_user_by_id}
use be_miawai.Database.Payments.{
  create_payment_transaction, get_payment_by_order_id, update_payment_transaction_status,
}
use be_miawai.Handlers.Reply.{Handler, reply, Reply, deny_if, required, from_store, attempt}
use be_miawai.Handlers.Access.{has_access, billing_write, decorate_user_access}
use be_miawai.Handlers.Calendar.{
  subscription_period_end, add_month, add_year, yearly_product, monthly_product,
}

-- `normalizeMidtransStatus`
unfoldable pub normalize_midtrans_status : Text → Text → Text
normalize_midtrans_status transaction_status fraud_status =
    if text_eq (folded transaction_status) (codes "capture")
      && text_eq (folded fraud_status) (codes "challenge")
    then codes "challenge"
    else folded transaction_status

-- `checkoutProductAmount`, in rupiah
unfoldable pub checkout_product_amount : Text → Option ℕ
checkout_product_amount product_id =
    if text_eq product_id monthly_product
    then some 59000
    else if text_eq product_id yearly_product
    then some 590000
    else if text_eq product_id (codes "miaw_credit_usd_5_idr_25000")
    then some 25000
    else if text_eq product_id (codes "miaw_credit_usd_10_idr_50000")
    then some 50000
    else if text_eq product_id (codes "miaw_credit_usd_20_idr_100000")
    then some 100000
    else none

-- `isSubscriptionProduct`
unfoldable pub is_subscription_product : Text → Bool
is_subscription_product product_id = one_of product_id (monthly_product ∷ yearly_product ∷ [])

-- `database.IsNotFound`
abbrev pub is_not_found : Error → Bool
is_not_found no_rows = true
is_not_found _ = false

-- The body of a subscription update; an absent end never comes.
pub record SubscriptionBody : Type 0 where
  pub user_id : Text
  pub platform : Text
  pub product_id : Text
  pub status : Text
  pub current_period_end : Option ℕ

-- `platformSubscription`, for a body as it was decoded
unfoldable pub platform_subscription : User → Option SubscriptionBody → Handler (Unit {0})
platform_subscription user decoded =
    deny_if (not (has_access user billing_write)) 403
      "billing updates are not allowed for this role"
    >> do
      body ← required decoded 400 "invalid json body"
      deny_if (is_blank body.platform || is_blank body.product_id || is_blank body.status) 400
          "platform, productId, and status are required"
      from_store (λ e. reply 500 "failed to update subscription")
          (upsert_subscription user.id body.platform body.product_id body.status
            body.current_period_end)

-- `subscriptionWebhook`; `signed` is the test of the payload's signature.
unfoldable pub subscription_webhook : Bool → Option SubscriptionBody → Handler (Unit {0})
subscription_webhook signed decoded = deny_if (not signed) 401 "invalid signature" >> do
  body ← required decoded 400 "invalid json body"
  deny_if
      (is_blank body.user_id
        || is_blank body.platform
        || is_blank body.product_id
        || is_blank body.status)
      400 "userId, platform, productId, and status are required"
  from_store (λ e. reply 500 "failed to update subscription")
      (upsert_subscription body.user_id body.platform body.product_id body.status
        body.current_period_end)

-- The order of a checkout.
abbrev pub checkout_of : Text → Text → Text → ℕ → PaymentTransaction
checkout_of user_id order_id product_id amount = record {
  id = [];
  user_id = user_id;
  order_id = order_id;
  platform = codes "midtrans";
  product_id = product_id;
  amount = amount;
  currency = codes "IDR";
  status = codes "pending";
}

-- `createCheckout`: it answers with the order's id. `client_key` is the configured key, and `snap`
-- tells whether the payment service made a transaction of the order, product and amount.
unfoldable pub create_checkout : Text → (Text → Text → ℕ → Bool) → User → Option Text → Handler Text
create_checkout client_key snap user decoded = do
  product_id ← required decoded 400 "invalid json body"
  amount ← required (checkout_product_amount product_id) 400 "invalid productId"
  ord ← from_store (λ e. reply 500 "") (new_id (codes "ord"))
  let order_id = codes "MIAW-" ++ ord
  deny_if (is_blank (trim_space client_key)) 503 "payment popup is not configured"
  deny_if (not (snap order_id product_id amount)) 503 "payment is not available yet"
  from_store (λ e. reply 500 "failed to create payment transaction")
      (create_payment_transaction (checkout_of user.id order_id product_id amount))
  pure order_id

abbrev pub load_payment : Text → Handler PaymentTransaction
unfolding get_payment_by_order_id
load_payment order_id =
    from_store
      (λ e.
        if is_not_found e
        then reply 404 "transaction not found"
        else reply 500 "failed to load transaction")
      (get_payment_by_order_id order_id)

-- What the webhook and the synchronization do with a transaction's status.
unfoldable pub settle_payment : Text → PaymentTransaction → Text → Handler (Unit {0})
unfolding update_payment_transaction_status
settle_payment order_id txn status = do
  from_store (λ e. reply 500 "failed to update transaction")
      (update_payment_transaction_status order_id status)
  now ← gets (λ w. w.now)
  elim (one_of status (codes "settlement" ∷ codes "capture" ∷ [])
      && is_subscription_product txn.product_id) [
        | false ↦ pure tt
        | true ↦
            from_store (λ e. reply 500 "failed to activate subscription")
              (upsert_subscription txn.user_id (codes "midtrans") txn.product_id (codes "active")
                (some (subscription_period_end now txn.product_id)))
      ]

-- `syncCheckout`; `gateway` gives the transaction and fraud status of an order, if the payment
-- service answers.
unfoldable pub sync_checkout :
    (Text → Option (Text × Text)) → User → Option Text → Handler (Text × User)
unfolding settle_payment
sync_checkout gateway user decoded = do
  raw ← required decoded 400 "invalid json body"
  let order_id = trim_space raw
  deny_if (is_blank order_id || not (has_prefix order_id (codes "MIAW-"))) 400
      "valid orderId is required"
  txn ← load_payment order_id
  deny_if (not (text_eq txn.user_id user.id)) 403 "transaction does not belong to this user"
  answer ← required (gateway order_id) 502 "failed to sync payment status"
  let normal = normalize_midtrans_status answer.0 answer.1
  let status = if is_blank normal then codes "pending" else normal
  settle_payment order_id txn status
  refreshed ← from_store (λ e. reply 500 "failed to refresh account") (get_user_by_id user.id)
  pure (status, decorate_user_access refreshed)

-- The body of a notification of the payment service.
pub record Notification : Type 0 where
  pub order_id : Text
  pub transaction_status : Text
  pub fraud_status : Text
  pub status_code : Text
  pub gross_amount : Text
  pub signature_key : Text

-- `VerifySignatureKey`; `digest` is the SHA-512 digest in hexadecimal.
abbrev pub verify_signature_key : (Text → Text) → Text → Notification → Bool
verify_signature_key digest server_key n =
    text_eq (digest (n.order_id ++ (n.status_code ++ (n.gross_amount ++ server_key))))
      n.signature_key

-- `midtransWebhook`
unfoldable pub midtrans_webhook : (Text → Text) → Text → Option Notification → Handler (Unit {0})
unfolding settle_payment
midtrans_webhook digest server_key decoded = do
  n ← required decoded 400 "invalid json body"
  deny_if (not (has_prefix n.order_id (codes "MIAW-"))) 400 "invalid order id"
  deny_if (not (verify_signature_key digest server_key n)) 401 "invalid midtrans signature"
  txn ← load_payment n.order_id
  settle_payment n.order_id txn (normalize_midtrans_status n.transaction_status n.fraud_status)

-- `VerifyPurchaseToken`: the status and the end of a purchase, which is valid; `none` is its error.
unfoldable pub verify_purchase_token : ℕ → Text → Text → Option (Text × ℕ)
verify_purchase_token now product_id token =
    if has_prefix token (codes "mock_") && not (text_eq token (codes "mock_"))
    then some
        (codes "active", if text_eq product_id yearly_product then add_year now else add_month now)
    else none

pub record Purchase : Type 0 where
  pub purchase_token : Text
  pub product_id : Text
  pub package_name : Text

-- `verifyAndroidPurchase`; the error of the new payment transaction is ignored.
unfoldable pub verify_android_purchase : Text → User → Option Purchase → Handler (Unit {0})
verify_android_purchase package_name user decoded = do
  body ← required decoded 400 "invalid json body"
  deny_if (not (text_eq body.package_name package_name)) 400 "invalid package name"
  now ← gets (λ w. w.now)
  res ←
      required (verify_purchase_token now body.product_id body.purchase_token) 400
        "failed to verify purchase"
  attempt (
      create_payment_transaction (record {
        id = [];
        user_id = user.id;
        order_id = body.purchase_token;
        platform = codes "google_play";
        product_id = body.product_id;
        amount = 0;
        currency = codes "IDR";
        status = codes "settlement";
      }))
  from_store (λ e. reply 500 "failed to update subscription")
      (upsert_subscription user.id (codes "google_play") body.product_id res.0 (some res.1))
