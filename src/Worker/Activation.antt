-- ===== src/Worker/Activation.antt =====
-- worker.go: `handleSubscriptionActivate` and `handleDeviceExpansionActivate`.
use testmellow.Prelude.{ℕ, ◌+◌, ◌*◌, ◌||◌, not, none, some, ltb, ◌==◌, if◌then◌else◌}
use testmellow.Prelude.Int.{pos}
use testmellow.Domain.{
  SubscriptionPlan, SubscriptionStatus, YadTxType, plan_duration_days, plan_yad_bonus,
  device_expansion_max_extra, device_max_per_user,
}
use testmellow.World.Rows.{User, DeviceExpansion, Job, RemnaCall}
use testmellow.World.Exec.{
  Error, Exec, pure, raise, attempt, ◌>>=◌, ◌>>◌, on_option, on_result, fail_if, when, now, new_id,
  enqueue, remna, transaction, ignore, retry,
}
use testmellow.Redis.Once.{devexp_processed_key, set_nx}
use testmellow.Remnawave.{text_or_empty, is_blank, remna_username, recover_user, refresh_account}
use testmellow.Repo.Users.{
  get_by_id, lock_user_for_update, adjust_yad_balance, update_remna_uuid,
  increment_device_expansion_count,
}
use testmellow.Repo.Subscriptions.{
  day, lock_latest_subscription, get_active_subscription, create_subscription,
  extend_subscription_by_duration,
}
use testmellow.Repo.Expansions.{create_device_expansion}
use testmellow.Economy.Accounts.{require_user}
use testmellow.Worker.Payment.{
  is_allowed_paid_plan, enqueue_notify, user_or_nil, telegram_of, account_of,
}

-- `extendOrCreateSub`: the expiry after the update.
unfoldable pub extend_or_create_sub :
    (user_id payment_id : ℕ) (plan : SubscriptionPlan) (days paid_kopecks now : ℕ) → Exec ℕ
extend_or_create_sub user_id payment_id plan days paid_kopecks now = transaction do
  lock_user_for_update user_id
  existing ← lock_latest_subscription user_id
  on_option existing
      (do
        sub_id ← new_id
        create_subscription sub_id (record {
          user_id = user_id;
          plan = plan;
          status = SubscriptionStatus.active;
          starts_at = now;
          expires_at = now + days * day;
          remna_sub_uuid = none;
          paid_kopecks = paid_kopecks;
          payment_id = some payment_id;
        })
        pure (now + days * day))
      (λ (existing_id, s). extend_subscription_by_duration existing_id days plan)

-- The panel after the commit. Unlike in the services, a failure is an error of the job.
unfoldable pub sync_activation : ℕ → User → ℕ → Exec (Unit {0})
sync_activation user_id user expiry =
    if is_blank user.remna_user_uuid
    then (do
      created ← attempt (remna (RemnaCall.create_user (remna_username user_id user) expiry))
      uuid ←
          on_result created
            (λ e. do
              existing ← recover_user (remna_username user_id user) user_id
              on_option existing (raise e) pure)
            pure
      ignore (update_remna_uuid user_id uuid)
      refresh_account uuid expiry)
    else (do
      remna (RemnaCall.update_expiry (text_or_empty user.remna_user_uuid) expiry)
      ignore (remna (RemnaCall.enable_user (text_or_empty user.remna_user_uuid))))

-- The bonus for a purchase with rubles: a failure is only logged.
unfoldable pub credit_bonus : ℕ → SubscriptionPlan → Exec (Unit {0})
credit_bonus user_id plan = when (ltb 0 (plan_yad_bonus plan)) (
    ignore
      (transaction (adjust_yad_balance user_id (pos (plan_yad_bonus plan)) YadTxType.bonus none)))

-- `handleSubscriptionActivate`
unfoldable pub handle_subscription_activate : ℕ → ℕ → SubscriptionPlan → ℕ → Exec (Unit {0})
unfolding extend_or_create_sub sync_activation credit_bonus
handle_subscription_activate user_id payment_id plan amount_kopecks = do
  user ← require_user user_id
  t ← now
  fail_if (plan_duration_days plan == 0) Error.unknown_plan
  fail_if (not (is_allowed_paid_plan plan)) Error.unknown_plan
  expiry ←
      retry 2
        (extend_or_create_sub user_id payment_id plan (plan_duration_days plan) amount_kopecks t)
  sync_activation user_id user expiry
  on_option user.telegram_id (pure tt) enqueue_notify
  credit_bonus user_id plan

-- `qty < 1 || qty > DeviceExpansionMaxExtra`: one slot.
abbrev pub sane_qty : ℕ → ℕ
sane_qty qty = if ltb qty 1 || ltb device_expansion_max_extra qty then 1 else qty

-- The `commit` closure.
unfoldable pub commit_expansion : ℕ → DeviceExpansion → Exec (Unit {0})
commit_expansion user_id e = transaction do
  lock_user_for_update user_id
  create_device_expansion user_id e
  increment_device_expansion_count user_id

unfoldable pub announce_expansion : ℕ → ℕ → Exec (Unit {0})
announce_expansion user_id qty = do
  row ← attempt (get_by_id user_id)
  let user = user_or_nil row
  when (not (account_of user == 0)) (
      ignore
        (remna (RemnaCall.update_hwid_device_limit (account_of user) (device_max_per_user + qty))))
  on_option (telegram_of user) (pure tt) λ id. ignore (enqueue (Job.notify_telegram id))

-- `handleDeviceExpansionActivate`
unfoldable pub handle_device_expansion_activate : ℕ → ℕ → ℕ → Exec (Unit {0})
unfolding commit_expansion announce_expansion
handle_device_expansion_activate user_id payment_id qty = do
  is_new ← set_nx (devexp_processed_key payment_id) 1 172800
  if is_new
      then (do
        active ← get_active_subscription user_id
        on_option active (pure tt) λ (sub_id, sub). do
          retry 2 (
              commit_expansion user_id (record {
                id = payment_id;
                extra_devices = sane_qty qty;
                expires_at = sub.expires_at;
              }))
          announce_expansion user_id (sane_qty qty))
      else pure tt
