-- ===== src/Trial.antt =====
-- service.go: `ActivateTrial`.
pub mod Once
pub mod Balance
use testmellow.Prelude.{ℕ, ◌+◌, ◌*◌, Bool, true, false, Option, none, some, if◌then◌else◌}
use testmellow.Domain.{SubscriptionPlan, SubscriptionStatus}
use testmellow.World.Rows.{User, Subscription, RemnaCall}
use testmellow.World.Exec.{
  Error, Exec, pure, raise, attempt, ◌>>=◌, ◌>>◌, on_option, on_result, fail_if, now, new_id, remna,
  transaction, ignore,
}
use testmellow.Remnawave.{text_or_empty, is_blank, remna_username, recover_user, refresh_account}
use testmellow.Repo.Users.{set_trial_used_tx, update_remna_uuid}
use testmellow.Repo.Subscriptions.{day, create_subscription, update_subscription_remna}
use testmellow.Economy.Accounts.{require_user}

-- The panel after the commit: every failure is only logged.
unfoldable pub sync_trial : ℕ → ℕ → User → ℕ → Exec (Unit {0})
sync_trial user_id sub_id user expiry =
    if is_blank user.remna_user_uuid
    then (do
      created ← attempt (remna (RemnaCall.create_user (remna_username user_id user) expiry))
      on_result created
          (λ _. do
            existing ← recover_user (remna_username user_id user) user_id
            on_option existing (pure tt) λ uuid. do
              ignore (update_remna_uuid user_id uuid)
              ignore (update_subscription_remna sub_id uuid)
              refresh_account uuid expiry)
          (λ uuid. do
            ignore (update_remna_uuid user_id uuid)
            ignore (update_subscription_remna sub_id uuid)))
    else refresh_account (text_or_empty user.remna_user_uuid) expiry

-- The subscription and the mark on the user, in one transaction.
unfoldable pub commit_trial : ℕ → ℕ → Subscription → Exec (Unit {0})
commit_trial user_id sub_id sub =
    transaction do create_subscription sub_id sub; set_trial_used_tx user_id

-- `ActivateTrial`: three days.
unfoldable pub activate_trial : ℕ → Exec Subscription
unfolding sync_trial commit_trial
activate_trial user_id = do
  user ← require_user user_id
  fail_if user.trial_used Error.trial_used
  t ← now
  sub_id ← new_id
  let sub : Subscription = record {
    user_id = user_id;
    plan = SubscriptionPlan.week;
    status = SubscriptionStatus.trial;
    starts_at = t;
    expires_at = t + 3 * day;
    remna_sub_uuid = some (text_or_empty user.remna_user_uuid);
    paid_kopecks = 0;
    payment_id = none;
  }
  commit_trial user_id sub_id sub
  sync_trial user_id sub_id user (t + 3 * day)
  pure sub
