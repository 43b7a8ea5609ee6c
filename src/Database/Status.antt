-- ===== src/Database/Status.antt =====
-- The words for a subscription's status: `NormalizeSubscriptionStatus` and `subscriptionStatusRank`
-- of internal/database/store.go.
pub mod Laws
use be_miawai.Base.{
  ℕ, List, [], ◌∷◌, Bool, ◌||◌, Text, codes, one_of, text_eq, is_blank, if◌then◌else◌,
}
use be_miawai.Base.Strings.{trim_space, folded}

abbrev pub trialing : Text
trialing = codes "trialing"

abbrev pub active : Text
active = codes "active"

abbrev pub hold : Text
hold = codes "hold"

abbrev pub suspended : Text
suspended = codes "suspended"

abbrev pub past_due : Text
past_due = codes "past_due"

abbrev pub canceled : Text
canceled = codes "canceled"

abbrev pub expired : Text
expired = codes "expired"

abbrev pub no_status : Text
no_status = codes "none"

abbrev trial_words : List Text
trial_words = codes "trial" ∷ trialing ∷ []

abbrev active_words : List Text
active_words = active ∷ codes "settlement" ∷ codes "paid" ∷ []

abbrev hold_words : List Text
hold_words = hold ∷ codes "on_hold" ∷ codes "payment_hold" ∷ codes "account_hold" ∷ []

abbrev suspended_words : List Text
suspended_words = codes "suspend" ∷ suspended ∷ []

abbrev past_due_words : List Text
past_due_words = past_due ∷ codes "pastdue" ∷ codes "grace_period" ∷ []

abbrev canceled_words : List Text
canceled_words = codes "cancel" ∷ codes "cancelled" ∷ canceled ∷ []

abbrev expired_words : List Text
expired_words = codes "expire" ∷ expired ∷ []

-- The `switch` on the folded word; the default case looks at the status itself.
classify : Text → Text → Text
classify s status =
    if one_of s trial_words
    then trialing
    else if one_of s active_words
    then active
    else if one_of s hold_words
    then hold
    else if one_of s suspended_words
    then suspended
    else if one_of s past_due_words
    then past_due
    else if one_of s canceled_words
    then canceled
    else if one_of s expired_words
    then expired
    else if is_blank (trim_space status)
    then no_status
    else s

-- `NormalizeSubscriptionStatus`
unfoldable pub normalize_subscription_status : Text → Text
unfolding classify
normalize_subscription_status status = classify (folded status) status

-- `subscriptionStatusRank`
unfoldable pub subscription_status_rank : Text → ℕ
subscription_status_rank status =
    if text_eq status hold
    then 1
    else if text_eq status suspended
    then 2
    else if text_eq status past_due
    then 3
    else if text_eq status canceled
    then 4
    else if text_eq status expired
    then 5
    else 9

-- `normalized == "trialing" || normalized == "active"`
abbrev pub is_live : Text → Bool
is_live status = text_eq status trialing || text_eq status active
