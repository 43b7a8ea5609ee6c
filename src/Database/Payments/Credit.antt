-- ===== src/Database/Payments/Credit.antt =====
-- The credit that a user has bought, under each change of the payments table.
use be_miawai.Base.{
  ◌+◌, ◌≡◌, refl, arith, List, [], ◌∷◌, none, some, true, false, Text, text_eq_iff, one_of,
}
use be_miawai.Models.{PaymentTransaction}
use be_miawai.Database.Payments.{find_payment, set_status, settled_credit, credit_of, settled_words}

-- The order id is UNIQUE.
abbrev pub HasUniqueOrders : List PaymentTransaction → Type 0
HasUniqueOrders [] = Unit
HasUniqueOrders (t ∷ ts) = (find_payment t.order_id ts ≡ none) × HasUniqueOrders ts

set_status_absent :
    (order_id status : Text) (ts : List PaymentTransaction)
    → find_payment order_id ts ≡ none
    → set_status order_id status ts ≡ ts
unfolding find_payment set_status
set_status_absent order_id status [] h = refl
set_status_absent order_id status (t ∷ ts) h = ground (arith, set_status_absent order_id status ts)

-- Where order ids are distinct: giving an order that is not settled a settled status adds exactly
-- its product's credit to what its buyer has bought.
pub settle_adds_credit :
    (order_id status : Text) (ts : List PaymentTransaction) (t : PaymentTransaction)
    → HasUniqueOrders ts
    → find_payment order_id ts ≡ some t
    → one_of t.status settled_words ≡ false
    → one_of status settled_words ≡ true
    → settled_credit t.user_id (set_status order_id status ts)
      ≡ credit_of t.product_id + settled_credit t.user_id ts
unfolding find_payment set_status settled_credit
settle_adds_credit order_id status [] t u f n s = cc
settle_adds_credit order_id status (x ∷ ts) t u f n s = ground (
  arith,
  settle_adds_credit order_id status ts t u.1,
  set_status_absent order_id status ts,
  text_eq_iff x.order_id order_id,
  text_eq_iff x.user_id t.user_id,
)

-- Where order ids are distinct: a change of an order's status from settled to settled, or from
-- open to open, leaves every user's bought credit as it was, so that a repeated notification
-- credits nothing twice.
pub settle_again :
    (user_id order_id status : Text) (ts : List PaymentTransaction) (t : PaymentTransaction)
    → HasUniqueOrders ts
    → find_payment order_id ts ≡ some t
    → one_of t.status settled_words ≡ one_of status settled_words
    → settled_credit user_id (set_status order_id status ts) ≡ settled_credit user_id ts
unfolding find_payment set_status settled_credit
settle_again user_id order_id status [] t u f e = cc
settle_again user_id order_id status (x ∷ ts) t u f e = ground (
  arith,
  settle_again user_id order_id status ts t u.1,
  set_status_absent order_id status ts,
  text_eq_iff x.order_id order_id,
)
