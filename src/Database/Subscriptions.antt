-- ===== src/Database/Subscriptions.antt =====
-- The subscriptions of internal/database/store.go: `UpsertSubscription`,
-- `refreshUserEntitlement` and `StartTrialSubscription`.
pub mod Decision
pub mod Rows
pub mod Effects
pub mod Trial
use be_miawai.Base.{
  ℕ, ◌+◌, ◌*◌, ◌≡◌, List, [], ◌∷◌, Option, none, some, Bool, true, false, not, ◌&&◌, ◌||◌, Text,
  codes, text_eq, is_blank, ltb, if◌then◌else◌,
}
use be_miawai.Models.{Subscription}
use be_miawai.Database.World.{
  UserRow, World, Query, trial_already_used, ok, pure, raise_if, gets, modify, ◌>>=◌, ◌>>◌,
  statement, new_id,
}
use be_miawai.Database.Status.{
  normalize_subscription_status, subscription_status_rank, is_live, expired, no_status, trialing,
}

abbrev pub free : Text
free = codes "free"

abbrev pub pro : Text
pro = codes "pro"

-- The variables of the loop in `refreshUserEntitlement`.
pub record Entitlement : Type 0 where
  pub plan : Text
  pub status : Text
  pub until : Option ℕ
  pub fallback : Text

-- `!currentPeriodEnd.Valid || currentPeriodEnd.Time.After(now)`
unfoldable pub runs : ℕ → Option ℕ → Bool
runs now none = true
runs now (some end) = ltb now end

-- What a row that entitles to nothing leaves as the status to fall back on.
unfoldable pub fall_back : Text → Text → Text
fall_back normalized fallback =
    if is_live normalized
    then (if is_blank fallback then expired else fallback)
    else if is_blank fallback
        || ltb (subscription_status_rank normalized) (subscription_status_rank fallback)
    then normalized
    else fallback

-- The loop: it stops at the first row that is live and runs.
unfoldable pub scan : ℕ → Entitlement → List Subscription → Entitlement
scan now e [] = e
scan now e (row ∷ rows) =
    let normalized = normalize_subscription_status row.status in
    let rest = scan now (record e { fallback = fall_back normalized e.fallback }) rows in
    if is_live normalized && runs now row.current_period_end
    then record e { plan = pro; status = normalized; until = row.current_period_end }
    else rest

-- `if status == "none" && fallbackStatus != ""`
unfoldable pub conclude : Entitlement → Entitlement
conclude e =
    if text_eq e.status no_status && not (is_blank e.fallback)
    then record e { status = e.fallback }
    else e

abbrev pub initial : Entitlement
initial = record { plan = free; status = no_status; until = none; fallback = [] }

unfoldable pub entitlement : ℕ → List Subscription → Entitlement
unfolding scan conclude runs fall_back
entitlement now rows = conclude (scan now initial rows)

-- `WHERE user_id = $1`
unfoldable pub rows_of : Text → List Subscription → List Subscription
rows_of user_id [] = []
rows_of user_id (row ∷ rows) =
    if text_eq row.user_id user_id then row ∷ rows_of user_id rows else rows_of user_id rows

-- `SET plan = $2, subscription_status = $3, entitled_until = $4`
abbrev pub entitled : Entitlement → UserRow → UserRow
entitled e u = record u { plan = e.plan; subscription_status = e.status; entitled_until = e.until }

-- `UPDATE users SET … WHERE id = $1`
unfoldable pub set_entitlement : Text → Entitlement → List UserRow → List UserRow
set_entitlement user_id e [] = []
set_entitlement user_id e (u ∷ us) =
    (if text_eq u.id user_id then entitled e u else u) ∷ set_entitlement user_id e us

unfoldable pub refresh_user_entitlement : Text → Query (Unit {0})
refresh_user_entitlement user_id = do
  statement
  e ← gets (λ w. entitlement w.now (rows_of user_id w.subscriptions))
  statement
  modify (λ w. record w { users = set_entitlement user_id e w.users })

abbrev pub same_key : Text → Text → Text → Subscription → Bool
same_key user_id platform product_id row =
    text_eq row.user_id user_id
    && text_eq row.platform platform
    && text_eq row.product_id product_id

-- The row that `ON CONFLICT (user_id, platform, product_id)` finds.
unfoldable pub find_row : Text → Text → Text → List Subscription → Option Subscription
find_row user_id platform product_id [] = none
find_row user_id platform product_id (row ∷ rows) =
    if same_key user_id platform product_id row
    then some row
    else find_row user_id platform product_id rows

unfoldable pub without : Text → Text → Text → List Subscription → List Subscription
without user_id platform product_id [] = []
without user_id platform product_id (row ∷ rows) =
    let rest = without user_id platform product_id rows in
    if same_key user_id platform product_id row then rest else row ∷ rest

-- `INSERT … ON CONFLICT … DO UPDATE`: the row keeps its id, and is the last updated.
unfoldable pub upsert_row : Subscription → List Subscription → List Subscription
unfolding find_row without
upsert_row row rows = elim (find_row row.user_id row.platform row.product_id rows) [
  | none ↦ row ∷ rows
  | some old ↦ record row { id = old.id } ∷ without row.user_id row.platform row.product_id rows
]

unfoldable pub upsert_subscription : Text → Text → Text → Text → Option ℕ → Query (Unit {0})
upsert_subscription user_id platform product_id status current_period_end = do
  id ← new_id (codes "sub")
  statement
  modify (λ w. record w {
    subscriptions =
        upsert_row
          (record {
            id = id;
            user_id = user_id;
            platform = platform;
            product_id = product_id;
            status = normalize_subscription_status status;
            current_period_end = current_period_end;
          })
          w.subscriptions;
  })
  refresh_user_entitlement user_id

abbrev pub second : ℕ
second = 1000000000

abbrev pub hour : ℕ
hour = 3600 * second

abbrev pub trial_product : Text
trial_product = codes "miaw_pro_trial_3d"

-- `SELECT id FROM subscriptions WHERE user_id = $1 AND product_id = 'miaw_pro_trial_3d'`
unfoldable pub trial_used : Text → List Subscription → Bool
trial_used user_id [] = false
trial_used user_id (row ∷ rows) =
    (text_eq row.user_id user_id && text_eq row.product_id trial_product) || trial_used user_id rows

unfoldable pub start_trial_subscription : Text → ℕ → Query (Unit {0})
start_trial_subscription user_id duration = do
  statement
  used ← gets (λ w. trial_used user_id w.subscriptions)
  raise_if used trial_already_used
  now ← gets (λ w. w.now)
  upsert_subscription user_id (codes "miaw") trial_product trialing
      (some (now + (if ltb 0 duration then duration else 72 * hour)))
