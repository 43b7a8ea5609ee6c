-- ===== src/Tests/Billing.antt =====
-- The theorems on subscriptions and payments at concrete inputs.
use be_miawai.Base.{◌≡◌, refl, [], ◌∷◌, codes, text_eq, ◌⊎◌}
use be_miawai.Database.World.{err, trial_already_used, db_fault}
use be_miawai.Database.Subscriptions.{
  refresh_user_entitlement, upsert_subscription, start_trial_subscription, entitlement, trial_used,
}
use be_miawai.Database.Subscriptions.Decision.{Decision, entitlement-Decision}
use be_miawai.Database.Subscriptions.Trial.{start_trial_once, same}
use be_miawai.Tests.Sample.{sample, monthly, old}

entitlement-Decision_example :
    Decision 1000 (old ∷ monthly ∷ []) (entitlement 1000 (old ∷ monthly ∷ []))
entitlement-Decision_example = entitlement-Decision 1000 (old ∷ monthly ∷ [])

start_trial_once_example :
    (((start_trial_subscription
          (codes "ada")
          0
          (start_trial_subscription (codes "ada") 0 sample).1).0
        ≡ err trial_already_used)
      ⊎ ((start_trial_subscription
            (codes "ada")
            0
            (start_trial_subscription (codes "ada") 0 sample).1).0
          ≡ err db_fault))
    × ((start_trial_subscription
          (codes "ada")
          0
          (start_trial_subscription (codes "ada") 0 sample).1).1.subscriptions
        ≡ (start_trial_subscription (codes "ada") 0 sample).1.subscriptions)
    × ((start_trial_subscription
          (codes "ada")
          0
          (start_trial_subscription (codes "ada") 0 sample).1).1.users
        ≡ (start_trial_subscription (codes "ada") 0 sample).1.users)
unfolding start_trial_subscription trial_used text_eq upsert_subscription refresh_user_entitlement
start_trial_once_example =
    start_trial_once (codes "ada") 0 0 sample (start_trial_subscription (codes "ada") 0 sample).1
      refl same
