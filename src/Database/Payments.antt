-- ===== src/Database/Payments.antt =====
-- internal/database/payment_store.go: payment transactions and the credit that they buy.
pub mod Credit
use be_miawai.Base.{
  ℕ, ◌+◌, List, [], ◌∷◌, Option, none, some, Bool, false, ◌&&◌, ◌||◌, Text, codes, text_eq, one_of,
  if◌then◌else◌,
}
use be_miawai.Models.{PaymentTransaction}
use be_miawai.Database.World.{
  World, Query, constraint, ok, err, pure, raise, raise_if, gets, modify, ◌>>=◌, ◌>>◌, statement,
  new_id,
}
use be_miawai.Database.Users.{or_no_rows, is_some}

-- `… WHERE order_id = $1`
unfoldable pub find_payment : Text → List PaymentTransaction → Option PaymentTransaction
find_payment order_id [] = none
find_payment order_id (t ∷ ts) =
    if text_eq t.order_id order_id then some t else find_payment order_id ts

-- The order id is UNIQUE: a second transaction of the same order is refused.
unfoldable pub create_payment_transaction : PaymentTransaction → Query (Unit {0})
create_payment_transaction txn = do
  id ← new_id (codes "ptx")
  statement
  old ← gets (λ w. find_payment txn.order_id w.payments)
  raise_if (is_some old) constraint
  modify (λ w. record w { payments = record txn { id = id } ∷ w.payments })

unfoldable pub set_status : Text → Text → List PaymentTransaction → List PaymentTransaction
set_status order_id status [] = []
set_status order_id status (t ∷ ts) =
    (if text_eq t.order_id order_id then record t { status = status } else t)
    ∷ set_status order_id status ts

unfoldable pub update_payment_transaction_status : Text → Text → Query (Unit {0})
update_payment_transaction_status order_id status = do
  statement
  modify (λ w. record w { payments = set_status order_id status w.payments })

unfoldable pub get_payment_by_order_id : Text → Query PaymentTransaction
get_payment_by_order_id order_id = do
  statement
  t ← gets (λ w. find_payment order_id w.payments)
  or_no_rows t

-- `CASE product_id WHEN … END`, in whole dollars.
unfoldable pub credit_of : Text → ℕ
credit_of product_id =
    if text_eq product_id (codes "miaw_credit_usd_5_idr_25000")
    then 5
    else if text_eq product_id (codes "miaw_credit_usd_10_idr_50000")
    then 10
    else if text_eq product_id (codes "miaw_credit_usd_20_idr_100000")
    then 20
    else 0

abbrev pub settled_words : List Text
settled_words = codes "settlement" ∷ codes "capture" ∷ codes "paid" ∷ codes "success" ∷ []

-- `SUM(CASE …) … WHERE user_id = $1 AND status IN (…)`
unfoldable pub settled_credit : Text → List PaymentTransaction → ℕ
settled_credit user_id [] = 0
settled_credit user_id (t ∷ ts) =
    (if text_eq t.user_id user_id && one_of t.status settled_words
      then credit_of t.product_id
      else 0)
    + settled_credit user_id ts

unfoldable pub get_settled_credit_purchase_usd : Text → Query ℕ
get_settled_credit_purchase_usd user_id = do
  statement
  gets (λ w. settled_credit user_id w.payments)
