-- ===== src/Handlers/Billing/Settle.antt =====
-- What a payment, or a purchase, does to its buyer (internal/handlers/server.go).
use be_miawai.Base.{
  ◌≡◌, ◌≢◌, refl, inl, inr, List, [], ◌∷◌, ◌++◌, Option, some, true, Text, codes, text_eq,
  text_eq_refl, one_of, arith, Option-cases, ℕ, ◌<◌, ap, Bool, ◌+◌, false,
}
use be_miawai.Models.{User, PaymentTransaction}
use be_miawai.Database.World.{World, UserRow, ok, Calm, find_user, later_faults}
use be_miawai.Database.Status.{normalize_subscription_status, active}
use be_miawai.Database.Subscriptions.{upsert_subscription, pro, refresh_user_entitlement}
use be_miawai.Database.Subscriptions.Effects.{upsert_subscription-pro, upsert_subscription-others}
use be_miawai.Database.Payments.{
  find_payment, set_status, get_payment_by_order_id, update_payment_transaction_status,
  create_payment_transaction,
}
use be_miawai.Handlers.Calendar.{subscription_period_end, subscription_period_end_bounds}
use be_miawai.Handlers.Billing.{
  settle_payment, midtrans_webhook, create_checkout, Notification, verify_signature_key,
  is_subscription_product, normalize_midtrans_status, checkout_product_amount, checkout_of,
}
use be_miawai.Base.Strings.{
  folded, trim_space, trim_left, trim_right, snoc_trim, is_space, lower, has_prefix,
}

-- The row of a user who has paid until `end`.
abbrev pub paid_until : Option ℕ → UserRow → UserRow
paid_until end u = record u { plan = pro; subscription_status = active; entitled_until = end }

pub normalize-active : normalize_subscription_status active ≡ active
unfolding normalize_subscription_status folded trim_space trim_left trim_right snoc_trim is_space
    lower one_of text_eq
normalize-active = refl

upsert_subscription-payments :
    (user_id platform product_id status : Text) (end : Option ℕ) (w : World)
    → (upsert_subscription user_id platform product_id status end w).1.payments ≡ w.payments
unfolding upsert_subscription refresh_user_entitlement
upsert_subscription-payments user_id platform product_id status end w = ground arith

-- The world in which a settled payment's subscription is recorded.
abbrev pub with_status : Text → Text → World → World
with_status order_id status w = record w {
  faults = later_faults w.faults;
  payments = set_status order_id status w.payments;
}

pub settle_payment-others :
    (order_id : Text) (t : PaymentTransaction) (status : Text) (w : World) (v : Text)
    → v ≢ t.user_id
    → find_user v (settle_payment order_id t status w).1.users ≡ find_user v w.users
unfolding settle_payment update_payment_transaction_status
settle_payment-others order_id t status w v n = ground (
  arith,
  upsert_subscription-others t.user_id (codes "midtrans") t.product_id active
      (some (subscription_period_end w.now t.product_id)) (with_status order_id status w) v n,
)

pub period_end_later : (now : ℕ) (product_id : Text) → now < subscription_period_end now product_id
period_end_later now product_id = ground (arith, subscription_period_end_bounds now product_id)

pub settle_payment-pro :
    (order_id : Text) (t : PaymentTransaction) (status : Text) (w : World) (u : UserRow)
    → Calm w
    → find_user t.user_id w.users ≡ some u
    → one_of status (codes "settlement" ∷ codes "capture" ∷ []) ≡ true
    → is_subscription_product t.product_id ≡ true
    → ((settle_payment order_id t status w).0 ≡ ok tt)
      × (find_user t.user_id (settle_payment order_id t status w).1.users
          ≡ some (paid_until (some (subscription_period_end w.now t.product_id)) u))
      × ((settle_payment order_id t status w).1.payments ≡ set_status order_id status w.payments)
unfolding settle_payment update_payment_transaction_status
settle_payment-pro order_id t status w u c f s p =
    let end = some (subscription_period_end w.now t.product_id) in
    let paid =
      upsert_subscription-pro t.user_id (codes "midtrans") t.product_id active end
        (with_status order_id status w) (ap later_faults c) f (inr normalize-active)
        (period_end_later w.now t.product_id) in
    let kept =
      upsert_subscription-payments t.user_id (codes "midtrans") t.product_id active end
        (with_status order_id status w) in
    (ground (arith, paid), ground (arith, paid, normalize-active), ground (arith, kept))

-- The world after one statement that did not fail.
abbrev pub stepped : World → World
stepped w = record w { faults = later_faults w.faults }

abbrev pub Settles : Notification → Type 0
Settles n =
    one_of (normalize_midtrans_status n.transaction_status n.fraud_status)
      (codes "settlement" ∷ codes "capture" ∷ [])
    ≡ true

pub midtrans_webhook-pro :
    (digest : Text → Text) (server_key : Text) (n : Notification) (w : World)
    (t : PaymentTransaction) (u : UserRow)
    → Calm w
    → find_payment n.order_id w.payments ≡ some t
    → has_prefix n.order_id (codes "MIAW-") ≡ true
    → verify_signature_key digest server_key n ≡ true
    → Settles n
    → is_subscription_product t.product_id ≡ true
    → find_user t.user_id w.users ≡ some u
    → ((midtrans_webhook digest server_key (some n) w).0 ≡ ok tt)
      × (find_user t.user_id (midtrans_webhook digest server_key (some n) w).1.users
          ≡ some (paid_until (some (subscription_period_end w.now t.product_id)) u))
unfolding midtrans_webhook get_payment_by_order_id
midtrans_webhook-pro digest server_key n w t u c f p v s q g =
    let paid =
      settle_payment-pro n.order_id t
        (normalize_midtrans_status n.transaction_status n.fraud_status) (stepped w) u
        (ap later_faults c) g s q in
    (ground (arith, paid), ground (arith, paid))

-- A notification changes no other user's row.
pub midtrans_webhook-others :
    (digest : Text → Text) (server_key : Text) (n : Notification) (w : World)
    (t : PaymentTransaction) (v : Text)
    → find_payment n.order_id w.payments ≡ some t
    → v ≢ t.user_id
    → find_user v (midtrans_webhook digest server_key (some n) w).1.users ≡ find_user v w.users
unfolding midtrans_webhook get_payment_by_order_id
midtrans_webhook-others digest server_key n w t v f d = ground (
  arith,
  settle_payment-others n.order_id t (normalize_midtrans_status n.transaction_status n.fraud_status)
      (stepped w) v d,
)

-- A notification that is not signed changes nobody's row.
pub midtrans_webhook-unsigned :
    (digest : Text → Text) (server_key : Text) (n : Notification) (w : World)
    → verify_signature_key digest server_key n ≡ false
    → (midtrans_webhook digest server_key (some n) w).1.users ≡ w.users
unfolding midtrans_webhook
midtrans_webhook-unsigned digest server_key n w f = ground arith

-- The order that a checkout leaves in the table.
abbrev pub Ordered : Text → Text → Text → List PaymentTransaction → Type 0
Ordered user_id product_id order_id ts =
    (t : PaymentTransaction) × (find_payment order_id ts ≡ some t)
    × (t.user_id ≡ user_id)
    × (t.product_id ≡ product_id)
    × (has_prefix order_id (codes "MIAW-") ≡ true)

pub create_checkout-Ordered :
    (client_key : Text) (snap : Text → Text → ℕ → Bool) (user : User) (product_id : Text)
    (w : World) (order_id : Text)
    → (create_checkout client_key snap user (some product_id) w).0 ≡ ok order_id
    → Ordered user.id product_id order_id
        (create_checkout client_key snap user (some product_id) w).1.payments
unfolding create_checkout create_payment_transaction find_payment has_prefix
create_checkout-Ordered client_key snap user product_id w order_id h =
    elim (Option-cases (checkout_product_amount product_id)) [
      | inl e ↦ absurd (ground arith)
      | inr (amount, e) ↦ (
        record (checkout_of user.id order_id product_id amount) {
          id = codes "ptx" ++ (b'_' ∷ w.random (w.draws + 1));
        },
        ground (arith, text_eq_refl order_id),
        refl,
        refl,
        ground arith,
      )
    ]
