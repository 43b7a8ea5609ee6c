-- ===== src/Database/Subscriptions/Trial.antt =====
-- A user gets the trial of `StartTrialSubscription` once.
use be_miawai.Base.{
  ℕ, ◌+◌, ◌*◌, ◌≡◌, arith, List, ◌∷◌, ◌++◌, some, true, Text, codes, text_eq_refl, ltb,
  if◌then◌else◌, ◌⊎◌,
}
use be_miawai.Models.{Subscription}
use be_miawai.Database.World.{World, ok, err, trial_already_used, db_fault}
use be_miawai.Database.Status.{normalize_subscription_status, trialing}
use be_miawai.Database.Subscriptions.{
  upsert_row, upsert_subscription, refresh_user_entitlement, start_trial_subscription, trial_used,
  trial_product, hour,
}
use be_miawai.Database.Subscriptions.Rows.{trial_used-upsert_row}

-- The table after any number of upserts, by whomever.
pub data Later (rows : List Subscription) : List Subscription → Type 0 where
  same : Later rows rows
  upserted :
      {rows' : List Subscription} (row : Subscription)
      → Later rows rows'
      → Later rows (upsert_row row rows')

trial_used-Later :
    {rows rows' : List Subscription} (v : Text)
    → Later rows rows'
    → trial_used v rows ≡ true
    → trial_used v rows' ≡ true
trial_used-Later v same h = h
trial_used-Later v (upserted {rows' = mid} row l) h =
    trial_used-upsert_row row mid v (trial_used-Later v l h)

trial_used-upsert_row_self :
    (row : Subscription) (rows : List Subscription)
    → row.product_id ≡ trial_product
    → trial_used row.user_id (upsert_row row rows) ≡ true
unfolding upsert_row trial_used
trial_used-upsert_row_self row rows e =
    ground (arith, text_eq_refl row.user_id, text_eq_refl trial_product)

start_trial-used :
    (v : Text) (d : ℕ) (w : World)
    → (start_trial_subscription v d w).0 ≡ ok tt
    → trial_used v (start_trial_subscription v d w).1.subscriptions ≡ true
unfolding start_trial_subscription upsert_subscription refresh_user_entitlement
start_trial-used v d w h =
    let row : Subscription = record {
      id = codes "sub" ++ (b'_' ∷ w.random w.draws);
      user_id = v;
      platform = codes "miaw";
      product_id = trial_product;
      status = normalize_subscription_status trialing;
      current_period_end = some (w.now + (if ltb 0 d then d else 72 * hour));
    } in
    ground (arith, trial_used-upsert_row_self row w.subscriptions)

start_trial-refused :
    (v : Text) (d : ℕ) (w : World)
    → trial_used v w.subscriptions ≡ true
    → let (r, w') = start_trial_subscription v d w in
      ((r ≡ err trial_already_used) ⊎ (r ≡ err db_fault))
      × (w'.subscriptions ≡ w.subscriptions)
      × (w'.users ≡ w.users)
unfolding start_trial_subscription
start_trial-refused v d w h = ground arith

-- A user gets one trial: once `StartTrialSubscription` has succeeded, and after any upserts of
-- subscriptions, it answers that the trial is used (or that a statement failed) and changes
-- neither the subscriptions nor the users.
pub start_trial_once :
    (v : Text) (d d' : ℕ) (w w' : World)
    → (start_trial_subscription v d w).0 ≡ ok tt
    → Later (start_trial_subscription v d w).1.subscriptions w'.subscriptions
    → let (r, w'') = start_trial_subscription v d' w' in
      ((r ≡ err trial_already_used) ⊎ (r ≡ err db_fault))
      × (w''.subscriptions ≡ w'.subscriptions)
      × (w''.users ≡ w'.users)
start_trial_once v d d' w w' h l =
    start_trial-refused v d' w' (trial_used-Later v l (start_trial-used v d w h))
