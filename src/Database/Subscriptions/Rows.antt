-- ===== src/Database/Subscriptions/Rows.antt =====
-- The rows of `subscriptions` under `UpsertSubscription`: one row to a key, the others untouched.
use be_miawai.Base.{
  ◌≡◌, refl, arith, List, [], ◌∷◌, Option, none, some, true, false, Text, text_eq, text_eq_iff, ◌⊎◌,
  ◌&&◌, if◌then◌else◌,
}
use be_miawai.Models.{Subscription}
use be_miawai.Database.Subscriptions.{
  same_key, find_row, without, upsert_row, trial_used, trial_product,
}

-- UNIQUE (user_id, platform, product_id)
abbrev pub IsKeyed : List Subscription → Type 0
IsKeyed [] = Unit
IsKeyed (row ∷ rows) = (find_row row.user_id row.platform row.product_id rows ≡ none) × IsKeyed rows

find_row-without_self :
    (u p q : Text) (rows : List Subscription) → find_row u p q (without u p q rows) ≡ none
unfolding find_row without
find_row-without_self u p q [] = refl
find_row-without_self u p q (row ∷ rows) = ground (arith, find_row-without_self u p q rows)

-- Taking out one key's rows leaves every other key's.
find_row-without_ne :
    (u p q u' p' q' : Text) (rows : List Subscription)
    → (text_eq u u' && text_eq p p' && text_eq q q') ≡ false
    → find_row u' p' q' (without u p q rows) ≡ find_row u' p' q' rows
unfolding find_row without
find_row-without_ne u p q u' p' q' [] n = refl
find_row-without_ne u p q u' p' q' (row ∷ rows) n = ground (
  arith,
  find_row-without_ne u p q u' p' q' rows n,
  text_eq_iff row.user_id u,
  text_eq_iff row.platform p,
  text_eq_iff row.product_id q,
  text_eq_iff row.user_id u',
  text_eq_iff row.platform p',
  text_eq_iff row.product_id q',
  text_eq_iff u u',
  text_eq_iff p p',
  text_eq_iff q q',
)

-- What is absent stays absent when rows are taken out.
find_row-without-none :
    (u p q u' p' q' : Text) (rows : List Subscription)
    → find_row u' p' q' rows ≡ none
    → find_row u' p' q' (without u p q rows) ≡ none
unfolding find_row without
find_row-without-none u p q u' p' q' [] n = refl
find_row-without-none u p q u' p' q' (row ∷ rows) n =
    ground (arith, find_row-without-none u p q u' p' q' rows)

without-IsKeyed :
    (u p q : Text) (rows : List Subscription) → IsKeyed rows → IsKeyed (without u p q rows)
unfolding without
without-IsKeyed u p q [] k = tt
without-IsKeyed u p q (row ∷ rows) k = ground (
  arith,
  without-IsKeyed u p q rows,
  find_row-without-none u p q row.user_id row.platform row.product_id rows,
)

-- The upsert of a subscription keeps at most one row to a user, platform and product.
pub upsert_row-IsKeyed :
    (row : Subscription) (rows : List Subscription) → IsKeyed rows → IsKeyed (upsert_row row rows)
unfolding upsert_row
upsert_row-IsKeyed row rows k = ground (
  arith,
  find_row-without_self row.user_id row.platform row.product_id rows,
  without-IsKeyed row.user_id row.platform row.product_id rows k,
)

-- The id that the row of this key has after an upsert of `row`: the old row's, if there was one.
abbrev pub kept_id : Subscription → Option Subscription → Text
kept_id row none = row.id
kept_id row (some old) = old.id

pub find_row-upsert_row :
    (row : Subscription) (rows : List Subscription) (u p q : Text)
    → find_row u p q (upsert_row row rows) ≡ (
        if same_key u p q row
        then some (record row {
          id = kept_id row (find_row row.user_id row.platform row.product_id rows);
        })
        else find_row u p q rows)
unfolding upsert_row find_row
find_row-upsert_row row rows u p q =
    ground (arith, find_row-without_ne row.user_id row.platform row.product_id u p q rows)

trial_used-without :
    (u p q v : Text) (rows : List Subscription)
    → trial_used v rows ≡ true
    → (trial_used v (without u p q rows) ≡ true) ⊎ ((u ≡ v) × (q ≡ trial_product))
unfolding trial_used without
trial_used-without u p q v [] h = cc
trial_used-without u p q v (row ∷ rows) h = ground (
  arith,
  trial_used-without u p q v rows,
  text_eq_iff row.user_id u,
  text_eq_iff row.user_id v,
  text_eq_iff row.product_id q,
  text_eq_iff row.product_id trial_product,
)

-- Whatever is upserted, a trial that was taken stays on record.
pub trial_used-upsert_row :
    (row : Subscription) (rows : List Subscription) (v : Text)
    → trial_used v rows ≡ true
    → trial_used v (upsert_row row rows) ≡ true
unfolding trial_used upsert_row
trial_used-upsert_row row rows v h = ground (
  arith,
  trial_used-without row.user_id row.platform row.product_id v rows h,
  text_eq_iff row.user_id v,
  text_eq_iff row.product_id trial_product,
)
