-- ===== src/Database/Subscriptions/Decision.antt =====
-- What `refreshUserEntitlement` decides from a user's subscriptions.
use be_miawai.Base.{
  ℕ, ◌<◌, ◌≡◌, ◌≢◌, ◌↔◌, ◌⊎◌, inl, inr, refl, arith, List, [], ◌∷◌, Option, none, some, Bool, true,
  Text, text_eq, text_eq_iff, ltb→lt, lt→ltb, Bool-cases, ◌∙◌, ◌&&◌,
}
use be_miawai.Base.Lists.{All}
use be_miawai.Models.{Subscription}
use be_miawai.Database.Status.{normalize_subscription_status, active, trialing, is_live, no_status}
use be_miawai.Database.Subscriptions.{
  Entitlement, pro, free, runs, fall_back, scan, conclude, entitlement, initial,
}

-- The period has not ended: an absent end never comes.
abbrev pub IsCurrent : ℕ → Option ℕ → Type 0
IsCurrent now none = Unit
IsCurrent now (some end) = now < end

-- The row alone makes its user a pro user.
pub record Entitles (now : ℕ) (row : Subscription) : Type 0 where
  pub live :
      (normalize_subscription_status row.status ≡ trialing)
      ⊎ (normalize_subscription_status row.status ≡ active)
  pub current : IsCurrent now row.current_period_end

-- The first row, in the table's order, that makes its user a pro user.
pub data FirstEntitling (now : ℕ) (row : Subscription) : List Subscription → Type 0 where
  here : {rows : List Subscription} → Entitles now row → FirstEntitling now row (row ∷ rows)
  there :
      {other : Subscription} {rows : List Subscription}
      → ¬ Entitles now other
      → FirstEntitling now row rows
      → FirstEntitling now row (other ∷ rows)

abbrev pub NotLive : Text → Type 0
NotLive status = (status ≢ trialing) × (status ≢ active)

runs_iff : (now : ℕ) (end : Option ℕ) → (runs now end ≡ true) ↔ IsCurrent now end
unfolding runs
runs_iff now none = (λ _. tt, λ _. refl)
runs_iff now (some end) = (ltb→lt now end, lt→ltb now end)

is_live_iff : (s : Text) → (is_live s ≡ true) ↔ ((s ≡ trialing) ⊎ (s ≡ active))
is_live_iff s = (
  ground (arith, text_eq_iff s trialing, text_eq_iff s active),
  ground (arith, text_eq_iff s trialing, text_eq_iff s active),
)

and_true : {a b : Bool} → (a && b) ≡ true → (a ≡ true) × (b ≡ true)
and_true {a} {b} h = ground arith

both : {a b : Bool} → a ≡ true → b ≡ true → (a && b) ≡ true
both {a} {b} h k = rw (h, k)

-- The loop's test decides whether the row entitles.
pub Entitles-iff :
    (now : ℕ) (row : Subscription)
    → ((is_live (normalize_subscription_status row.status) && runs now row.current_period_end)
        ≡ true)
      ↔ Entitles now row
Entitles-iff now row =
    let live = is_live_iff (normalize_subscription_status row.status) in
    let current = runs_iff now row.current_period_end in
    (
      λ h. record { live = live.0 (and_true h).0; current = current.0 (and_true h).1 },
      λ e. both (live.1 e.live) (current.1 e.current),
    )

fall_back-NotLive : (s fallback : Text) → NotLive fallback → NotLive (fall_back s fallback)
unfolding fall_back
fall_back-NotLive s fallback h = ground (arith, text_eq_iff s trialing, text_eq_iff s active)

-- What the loop's variables hold when it ends: the first entitling row's, or what they held.
abbrev Outcome : ℕ → Entitlement → List Subscription → Entitlement → Type 0
Outcome now e rows e' =
    ((row : Subscription) × FirstEntitling now row rows
      × (e'.plan ≡ pro)
      × (e'.status ≡ normalize_subscription_status row.status)
      × (e'.until ≡ row.current_period_end))
    ⊎ (All (λ row. ¬ Entitles now row) rows
        × (e'.plan ≡ e.plan)
        × (e'.status ≡ e.status)
        × (e'.until ≡ e.until)
        × NotLive e'.fallback)

Outcome-cons :
    (now : ℕ) (e e₁ e' : Entitlement) (row : Subscription) (rows : List Subscription)
    → ¬ Entitles now row
    → (e₁.plan ≡ e.plan) × (e₁.status ≡ e.status) × (e₁.until ≡ e.until)
    → Outcome now e₁ rows e'
    → Outcome now e (row ∷ rows) e'
Outcome-cons now e e₁ e' row rows n (p, s, u) (inl (r, f, q₀, q₁, q₂)) =
    inl (r, there n f, q₀, q₁, q₂)
Outcome-cons now e e₁ e' row rows n (p, s, u) (inr (a, p', s', u', l)) =
    inr ((n, a), p' ∙ p, s' ∙ s, u' ∙ u, l)

scan-Outcome :
    (now : ℕ) (e : Entitlement) (rows : List Subscription)
    → NotLive e.fallback
    → Outcome now e rows (scan now e rows)
unfolding scan
scan-Outcome now e [] h = inr (tt, refl, refl, refl, h)
scan-Outcome now e (row ∷ rows) h =
    let normalized = normalize_subscription_status row.status in
    elim (Bool-cases (is_live normalized && runs now row.current_period_end)) [
      | inl t ↦ rw t (inl (row, here ((Entitles-iff now row).0 t), refl, refl, refl))
      | inr f ↦ rw f (
          Outcome-cons now e (record e { fallback = fall_back normalized e.fallback }) _ row rows
            (λ g. cc ((Entitles-iff now row).1 g, f)) (refl, refl, refl)
            (scan-Outcome now (record e { fallback = fall_back normalized e.fallback }) rows
              (fall_back-NotLive normalized e.fallback h)))
    ]

FirstEntitling-Entitles :
    {now : ℕ} {row : Subscription} {rows : List Subscription}
    → FirstEntitling now row rows
    → Entitles now row
FirstEntitling-Entitles (here e) = e
FirstEntitling-Entitles (there n f) = FirstEntitling-Entitles f

-- The decision, in the words of the tables.
abbrev pub Decision : ℕ → List Subscription → Entitlement → Type 0
Decision now rows e =
    ((row : Subscription) × FirstEntitling now row rows
      × (e.plan ≡ pro)
      × (e.status ≡ normalize_subscription_status row.status)
      × (e.until ≡ row.current_period_end))
    ⊎ (All (λ row. ¬ Entitles now row) rows × (e.plan ≡ free) × NotLive e.status × (e.until ≡ none))

conclude-status :
    (e : Entitlement)
    → (conclude e).plan ≡ e.plan
      × ((conclude e).until ≡ e.until)
      × ((e.status ≡ trialing) ⊎ (e.status ≡ active) → (conclude e).status ≡ e.status)
unfolding conclude text_eq
conclude-status e = ground arith

conclude-NotLive :
    (e : Entitlement) → e.status ≡ no_status → NotLive e.fallback → NotLive (conclude e).status
unfolding conclude text_eq
conclude-NotLive e h n = ground arith

conclude-Decision :
    (now : ℕ) (rows : List Subscription) (e : Entitlement)
    → Outcome now initial rows e
    → Decision now rows (conclude e)
conclude-Decision now rows e (inl (row, f, p, s, u)) =
    let (p', u', s') = conclude-status e in
    let live : (e.status ≡ trialing) ⊎ (e.status ≡ active) =
      rw s ((FirstEntitling-Entitles f).live) in
    inl (row, f, p' ∙ p, s' live ∙ s, u' ∙ u)
conclude-Decision now rows e (inr (a, p, s, u, n)) =
    let (p', u', s') = conclude-status e in inr (a, p' ∙ p, conclude-NotLive e s n, u' ∙ u)

-- The loop of `refreshUserEntitlement` gives the pro plan, with the status and the end of the
-- first row, last updated first, that is live and runs; where no row is, the free plan, no end,
-- and a status that is neither "trialing" nor "active".
pub entitlement-Decision :
    (now : ℕ) (rows : List Subscription) → Decision now rows (entitlement now rows)
unfolding entitlement
entitlement-Decision now rows =
    conclude-Decision now rows (scan now initial rows)
      (scan-Outcome now initial rows ((λ e. cc), (λ e. cc)))

FirstEntitling-unique :
    {now : ℕ} {r r' : Subscription} (rows : List Subscription)
    → FirstEntitling now r rows
    → FirstEntitling now r' rows
    → r ≡ r'
FirstEntitling-unique [] f g = elim f [ ]
FirstEntitling-unique (row ∷ rows) (here e) (here e') = refl
FirstEntitling-unique (row ∷ rows) (here e) (there n g) = absurd (n e)
FirstEntitling-unique (row ∷ rows) (there n f) (here e) = absurd (n e)
FirstEntitling-unique (row ∷ rows) (there n f) (there n' g) = FirstEntitling-unique rows f g

FirstEntitling-All :
    {now : ℕ} {r : Subscription} (rows : List Subscription)
    → FirstEntitling now r rows
    → ¬ All (λ row. ¬ Entitles now row) rows
FirstEntitling-All [] f a = elim f [ ]
FirstEntitling-All (row ∷ rows) (here e) a = a.0 e
FirstEntitling-All (row ∷ rows) (there n f) a = FirstEntitling-All rows f a.1

-- Where a row is the first that entitles, the decision is its own.
pub entitlement_first :
    (now : ℕ) (row : Subscription) (rows : List Subscription)
    → FirstEntitling now row rows
    → ((entitlement now rows).plan ≡ pro)
      × ((entitlement now rows).status ≡ normalize_subscription_status row.status)
      × ((entitlement now rows).until ≡ row.current_period_end)
entitlement_first now row rows f = elim (entitlement-Decision now rows) [
  | inl (r, g, p, s, u) ↦ rw (FirstEntitling-unique rows f g) (p, s, u)
  | inr (a, _, _, _) ↦ absurd (FirstEntitling-All rows f a)
]
