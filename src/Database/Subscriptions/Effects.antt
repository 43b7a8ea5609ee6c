-- ===== src/Database/Subscriptions/Effects.antt =====
-- What `UpsertSubscription` and `StartTrialSubscription` do to the tables, statement by statement.
use be_miawai.Base.{
  ◌≡◌, ◌≢◌, refl, arith, List, [], ◌∷◌, Option, none, some, Text, text_eq, text_eq_iff, Bool-cases,
  inl, inr, ◌⊎◌, ℕ, text_eq_refl, if◌then◌else◌, codes, ◌++◌, ◌∙◌,
}
use be_miawai.Models.{Subscription}
use be_miawai.Database.World.{UserRow, World, ok, Calm, failing, find_user}
use be_miawai.Database.Status.{normalize_subscription_status, trialing, active}
use be_miawai.Database.Status.Laws.{normalize-normalize}
use be_miawai.Database.Subscriptions.{
  Entitlement, pro, entitlement, entitled, rows_of, set_entitlement, refresh_user_entitlement,
  upsert_row, upsert_subscription, find_row, without,
}
use be_miawai.Database.Subscriptions.Decision.{IsCurrent, Entitles, here, entitlement_first}
use be_miawai.Database.Subscriptions.Rows.{kept_id}

pub find_user-set_entitlement :
    (id v : Text) (e : Entitlement) (us : List UserRow) (u : UserRow)
    → find_user v us ≡ some u
    → find_user v (set_entitlement id e us) ≡ some (if text_eq v id then entitled e u else u)
unfolding find_user set_entitlement
find_user-set_entitlement id v e [] u h = cc
find_user-set_entitlement id v e (x ∷ us) u h = ground (
  arith,
  find_user-set_entitlement id v e us u,
  text_eq_iff x.id v,
  text_eq_iff x.id id,
  text_eq_iff v id,
)

pub find_user-set_entitlement_ne :
    (id v : Text) (e : Entitlement) (us : List UserRow)
    → v ≢ id
    → find_user v (set_entitlement id e us) ≡ find_user v us
unfolding find_user set_entitlement
find_user-set_entitlement_ne id v e [] n = refl
find_user-set_entitlement_ne id v e (x ∷ us) n =
    ground
      (arith, find_user-set_entitlement_ne id v e us n, text_eq_iff x.id v, text_eq_iff x.id id)

-- The row that an upsert leaves in front.
abbrev placed : Subscription → List Subscription → Subscription
placed row rows = record row {
  id = kept_id row (find_row row.user_id row.platform row.product_id rows);
}

-- The rows below it.
abbrev beneath : Subscription → List Subscription → List Subscription
beneath row rows = elim (find_row row.user_id row.platform row.product_id rows) [
  | none ↦ rows
  | some _ ↦ without row.user_id row.platform row.product_id rows
]

rows_of-upsert_row :
    (row : Subscription) (rows : List Subscription)
    → rows_of row.user_id (upsert_row row rows)
      ≡ placed row rows ∷ rows_of row.user_id (beneath row rows)
unfolding upsert_row rows_of
rows_of-upsert_row row rows = ground (arith, text_eq_refl row.user_id)

-- A live status whose period runs entitles, wherever the row stood before.
upsert_row-entitlement :
    (now : ℕ) (row : Subscription) (rows : List Subscription)
    → Entitles now row
    → let e = entitlement now (rows_of row.user_id (upsert_row row rows)) in
      (e.plan ≡ pro)
      × (e.status ≡ normalize_subscription_status row.status)
      × (e.until ≡ row.current_period_end)
upsert_row-entitlement now row rows g = rw (rows_of-upsert_row row rows) (
    entitlement_first now (placed row rows)
      (placed row rows ∷ rows_of row.user_id (beneath row rows))
      (here (record { live = g.live; current = g.current })))

-- Where no statement fails and the user exists, recording a subscription whose status normalizes
-- to "trialing" or "active" and whose end has not come succeeds, and makes the user a pro user
-- with that status and end, whatever other subscriptions there are.
pub upsert_subscription-pro :
    (user_id platform product_id status : Text) (end : Option ℕ) (w : World) {u : UserRow}
    → Calm w
    → find_user user_id w.users ≡ some u
    → (normalize_subscription_status status ≡ trialing)
      ⊎ (normalize_subscription_status status ≡ active)
    → IsCurrent w.now end
    → let (r, w') = upsert_subscription user_id platform product_id status end w in
      (r ≡ ok tt)
      × (find_user user_id w'.users
          ≡ some (record u {
            plan = pro;
            subscription_status = normalize_subscription_status status;
            entitled_until = end;
          }))
unfolding upsert_subscription refresh_user_entitlement
upsert_subscription-pro user_id platform product_id status end w {u} calm found live current =
    let row : Subscription = record {
      id = codes "sub" ++ (b'_' ∷ w.random w.draws);
      user_id = user_id;
      platform = platform;
      product_id = product_id;
      status = normalize_subscription_status status;
      current_period_end = end;
    } in
    let e = entitlement w.now (rows_of user_id (upsert_row row w.subscriptions)) in
    ground (
      arith,
      normalize-normalize status,
      upsert_row-entitlement w.now row w.subscriptions
          (record { live = rw (normalize-normalize status) live; current = current }),
      find_user-set_entitlement user_id user_id e w.users u found,
      text_eq_refl user_id,
    )

-- The user stays so when its entitlement is refreshed at the same instant.
pub upsert_subscription-refresh :
    (user_id platform product_id status : Text) (end : Option ℕ) (w : World) {u : UserRow}
    → Calm w
    → find_user user_id w.users ≡ some u
    → (normalize_subscription_status status ≡ trialing)
      ⊎ (normalize_subscription_status status ≡ active)
    → IsCurrent w.now end
    → let w' = (upsert_subscription user_id platform product_id status end w).1 in
      let (r, w'') = refresh_user_entitlement user_id w' in
      (r ≡ ok tt)
      × (w''.faults ≡ [])
      × (find_user user_id w''.users
          ≡ some (record u {
            plan = pro;
            subscription_status = normalize_subscription_status status;
            entitled_until = end;
          }))
unfolding upsert_subscription refresh_user_entitlement
upsert_subscription-refresh user_id platform product_id status end w {u} calm found live current =
    let row : Subscription = record {
      id = codes "sub" ++ (b'_' ∷ w.random w.draws);
      user_id = user_id;
      platform = platform;
      product_id = product_id;
      status = normalize_subscription_status status;
      current_period_end = end;
    } in
    let e = entitlement w.now (rows_of user_id (upsert_row row w.subscriptions)) in
    let f = find_user-set_entitlement user_id user_id e w.users u found in
    let g =
      find_user-set_entitlement user_id user_id e (set_entitlement user_id e w.users) (entitled e u)
        (f ∙ rw (text_eq_refl user_id) refl) in
    ground (
      arith,
      normalize-normalize status,
      upsert_row-entitlement w.now row w.subscriptions
          (record { live = rw (normalize-normalize status) live; current = current }),
      g,
      text_eq_refl user_id,
    )

-- `UpsertSubscription` for one user leaves the row of every other user as it was, whichever
-- statements fail.
pub upsert_subscription-others :
    (user_id platform product_id status : Text) (end : Option ℕ) (w : World) (v : Text)
    → v ≢ user_id
    → find_user v (upsert_subscription user_id platform product_id status end w).1.users
      ≡ find_user v w.users
unfolding upsert_subscription refresh_user_entitlement
upsert_subscription-others user_id platform product_id status end w v n =
    let row : Subscription = record {
      id = codes "sub" ++ (b'_' ∷ w.random w.draws);
      user_id = user_id;
      platform = platform;
      product_id = product_id;
      status = normalize_subscription_status status;
      current_period_end = end;
    } in
    let e = entitlement w.now (rows_of user_id (upsert_row row w.subscriptions)) in
    ground (arith, find_user-set_entitlement_ne user_id v e w.users n)

-- The table after an upsert: the row is there as soon as its own statement has run.
pub upsert_subscription-rows :
    (user_id platform product_id status : Text) (end : Option ℕ) (w : World)
    → let w' = (upsert_subscription user_id platform product_id status end w).1 in
      (w'.subscriptions ≡ w.subscriptions)
      ⊎ ((id : Text) × (w'.subscriptions
            ≡ upsert_row
                (record {
                  id = id;
                  user_id = user_id;
                  platform = platform;
                  product_id = product_id;
                  status = normalize_subscription_status status;
                  current_period_end = end;
                })
                w.subscriptions))
unfolding upsert_subscription refresh_user_entitlement
upsert_subscription-rows user_id platform product_id status end w =
    elim (Bool-cases (failing w.faults)) [
      | inl f ↦ inl (ground arith)
      | inr c ↦ inr (codes "sub" ++ (b'_' ∷ w.random w.draws), ground arith)
    ]
