-- ===== src/Handlers/Billing/Lifecycle.antt =====
-- Checkout, notification and synchronization together (internal/handlers/server.go).
use be_miawai.Base.{
  ◌≡◌, Text, ℕ, Bool, some, ◌≢◌, true, ◌++◌, Option-cases, inl, arith, inr, Bool-cases, text_eq,
  text_eq_sound, ap, text_eq-apart, sym,
}
use be_miawai.Handlers.Billing.Settle.{
  midtrans_webhook-pro, create_checkout-Ordered, Settles, paid_until, midtrans_webhook-others,
  midtrans_webhook-unsigned,
}
use be_miawai.Handlers.Billing.{
  midtrans_webhook, Notification, create_checkout, verify_signature_key, is_subscription_product,
}
use be_miawai.Database.Payments.{get_payment_by_order_id, find_payment}
use be_miawai.Models.{User, PaymentTransaction}
use be_miawai.Database.World.{World, UserRow, find_user, Calm, ok}
use be_miawai.Handlers.Calendar.{subscription_period_end}

-- From the checkout to the plan: after `createCheckout` has answered with an order of a
-- subscription product, and as long as the payments stay as it left them, a signed notification of
-- the order's settlement or capture, with no failing statement and the buyer there, succeeds and
-- makes the buyer a pro user until `subscriptionPeriodEnd` of the product at that instant,
-- whatever the payment service's digest and the other tables.
pub checkout_pays :
    (client_key : Text) (snap : Text → Text → ℕ → Bool) (digest : Text → Text) (server_key : Text)
    (user : User) (product_id : Text) (w w' : World) (n : Notification) (u : UserRow)
    → (create_checkout client_key snap user (some product_id) w).0 ≡ ok n.order_id
    → w'.payments ≡ (create_checkout client_key snap user (some product_id) w).1.payments
    → Calm w'
    → find_user user.id w'.users ≡ some u
    → verify_signature_key digest server_key n ≡ true
    → Settles n
    → is_subscription_product product_id ≡ true
    → ((midtrans_webhook digest server_key (some n) w').0 ≡ ok tt)
      × (find_user user.id (midtrans_webhook digest server_key (some n) w').1.users
          ≡ some (paid_until (some (subscription_period_end w'.now product_id)) u))
checkout_pays client_key snap digest server_key user product_id w w' n u h e c f v s q =
    let (t, found, owner, product, prefix) =
      create_checkout-Ordered client_key snap user product_id w n.order_id h in
    let paid =
      midtrans_webhook-pro digest server_key n w' t u c (rw e found) prefix v s (rw product q)
        (rw owner f) in
    (paid.0, ground (arith, paid.1, owner, product))

webhook_owner :
    (digest : Text → Text) (server_key : Text) (n : Notification) (w : World)
    (t : PaymentTransaction) (v : Text)
    → find_payment n.order_id w.payments ≡ some t
    → find_user v (midtrans_webhook digest server_key (some n) w).1.users ≢ find_user v w.users
    → t.user_id ≡ v
webhook_owner digest server_key n w t v f h = elim (Bool-cases (text_eq t.user_id v)) [
  | inl e ↦ text_eq_sound t.user_id v e
  | inr d ↦ absurd (
      h (
        midtrans_webhook-others digest server_key n w t v f
          (λ e. text_eq-apart t.user_id v d (sym e))))
]

webhook_signed :
    (digest : Text → Text) (server_key : Text) (n : Notification) (w : World) (v : Text)
    → find_user v (midtrans_webhook digest server_key (some n) w).1.users ≢ find_user v w.users
    → digest (n.order_id ++ (n.status_code ++ (n.gross_amount ++ server_key))) ≡ n.signature_key
webhook_signed digest server_key n w v h =
    elim (Bool-cases (verify_signature_key digest server_key n)) [
      | inl s ↦
          text_eq_sound (digest (n.order_id ++ (n.status_code ++ (n.gross_amount ++ server_key))))
            n.signature_key s
      | inr f ↦ absurd (h (ap (find_user v) (midtrans_webhook-unsigned digest server_key n w f)))
    ]

-- Where a notification changes a user's row, its order is in the payments table and is that
-- user's, and its signature is the digest of its order, status code, amount and the server's key,
-- whatever statements fail.
pub midtrans_webhook-authentic :
    (digest : Text → Text) (server_key : Text) (n : Notification) (w : World) (v : Text)
    → find_user v (midtrans_webhook digest server_key (some n) w).1.users ≢ find_user v w.users
    → (t : PaymentTransaction) × (find_payment n.order_id w.payments ≡ some t)
      × (t.user_id ≡ v)
      × (digest (n.order_id ++ (n.status_code ++ (n.gross_amount ++ server_key))) ≡ n.signature_key)
unfolding midtrans_webhook get_payment_by_order_id
midtrans_webhook-authentic digest server_key n w v h =
    elim (Option-cases (find_payment n.order_id w.payments)) [
      | inl e ↦ absurd (h (ground arith))
      | inr (t, e) ↦ (
        t,
        e,
        webhook_owner digest server_key n w t v e h,
        webhook_signed digest server_key n w v h,
      )
    ]
