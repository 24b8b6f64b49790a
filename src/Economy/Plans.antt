-- ===== src/Economy/Plans.antt =====
-- EconomyService: plans and device expansions for YAD, with their retry loops.
use testmellow.Prelude.{
  ℕ, ◌+◌, ◌-◌, ◌*◌, ◌/◌, Bool, false, ◌||◌, not, Option, none, some, ltb, leb, ◌==◌, if◌then◌else◌,
}
use testmellow.Prelude.Int.{pos, neg, ltb_ℤ}
use testmellow.Domain.{
  SubscriptionPlan, SubscriptionStatus, YadTxType, plan_yad_price, plan_duration_days,
  device_expansion_yad, device_expansion_max_extra, device_max_per_user,
}
use testmellow.World.Rows.{User, Subscription, DeviceExpansion, RemnaCall}
use testmellow.World.Exec.{
  Error, Exec, pure, raise, attempt, ◌>>=◌, ◌>>◌, on_option, on_result, fail_if, when, now, new_id,
  remna, transaction, ignore, retry,
}
use testmellow.Remnawave.{text_or_empty, is_blank, remna_username, recover_user, refresh_account}
use testmellow.Repo.Users.{
  lock_user_for_update, adjust_yad_balance, update_remna_uuid, increment_device_expansion_count,
}
use testmellow.Repo.Subscriptions.{
  day, lock_latest_subscription, get_active_subscription, create_subscription,
  extend_subscription_by_duration,
}
use testmellow.Repo.Expansions.{get_active_device_expansion, create_device_expansion}
use testmellow.Economy.Accounts.{require_user}

-- Extends the subscription that is there.
extend_existing : ℕ → ℕ → SubscriptionPlan → Subscription → Exec (Subscription × ℕ)
extend_existing existing_id days plan existing = do
  expiry ← extend_subscription_by_duration existing_id days plan
  pure (
    record existing { expires_at = expiry; plan = plan; status = SubscriptionStatus.active },
    expiry,
  )

-- `tryBuyWithYAD`: one serializable transaction.
unfoldable pub try_buy_with_yad :
    (user_id : ℕ) (plan : SubscriptionPlan) (days sub_id remna_uuid price now : ℕ)
    → Exec (Subscription × ℕ)
unfolding extend_existing
try_buy_with_yad user_id plan days sub_id remna_uuid price now = transaction do
  lock_user_for_update user_id
  existing ← lock_latest_subscription user_id
  adjust_yad_balance user_id (neg (pos price)) YadTxType.spent (some sub_id)
  on_option existing
      (do
        let sub : Subscription = record {
          user_id = user_id;
          plan = plan;
          status = SubscriptionStatus.active;
          starts_at = now;
          expires_at = now + days * day;
          remna_sub_uuid = some remna_uuid;
          paid_kopecks = 0;
          payment_id = none;
        }
        create_subscription sub_id sub
        pure (sub, now + days * day))
      (λ (existing_id, sub). extend_existing existing_id days plan sub)

-- The panel after the commit: every failure is only logged.
unfoldable pub sync_purchase : ℕ → User → ℕ → Exec (Unit {0})
sync_purchase user_id user expiry =
    if is_blank user.remna_user_uuid
    then (do
      created ← attempt (remna (RemnaCall.create_user (remna_username user_id user) expiry))
      on_result created
          (λ _. do
            existing ← recover_user (remna_username user_id user) user_id
            on_option existing (pure tt)
                λ uuid. do ignore (update_remna_uuid user_id uuid); refresh_account uuid expiry)
          (λ uuid. ignore (update_remna_uuid user_id uuid)))
    else (do
      updated ←
          attempt (remna (RemnaCall.update_expiry (text_or_empty user.remna_user_uuid) expiry))
      on_result updated (λ _. pure tt)
          λ _. ignore (remna (RemnaCall.enable_user (text_or_empty user.remna_user_uuid))))

-- `BuySubscriptionWithYAD`
unfoldable pub buy_subscription_with_yad : ℕ → SubscriptionPlan → Exec Subscription
unfolding try_buy_with_yad sync_purchase
buy_subscription_with_yad user_id plan = do
  fail_if (plan_yad_price plan == 0) Error.unknown_plan
  user ← require_user user_id
  fail_if (ltb_ℤ user.yad_balance (pos (plan_yad_price plan))) Error.insufficient_balance
  t ← now
  sub_id ← new_id
  bought ← retry 2 (
      try_buy_with_yad user_id plan (plan_duration_days plan) sub_id
        (text_or_empty user.remna_user_uuid) (plan_yad_price plan) t)
  sync_purchase user_id user (bought.1)
  pure (bought.0)

abbrev pub days_remaining : ℕ → ℕ → ℕ
days_remaining expires_at now = (expires_at - now) / day

abbrev pub covers : ℕ → Option DeviceExpansion → Bool
covers qty none = false
covers qty (some e) = leb qty e.extra_devices

-- The full price, or what an upgrade adds to the price of the slots that are there.
abbrev pub expansion_cost : ℕ → ℕ → Option DeviceExpansion → ℕ
expansion_cost qty days none = device_expansion_yad qty days
expansion_cost qty days (some e) =
    device_expansion_yad qty days - device_expansion_yad e.extra_devices days

-- `tryBuyDeviceExpansion`: the expansion is read again under the lock.
unfoldable pub try_buy_device_expansion : (user_id qty days expires_at : ℕ) → Exec DeviceExpansion
try_buy_device_expansion user_id qty days expires_at = transaction do
  lock_user_for_update user_id
  existing ← get_active_device_expansion user_id
  fail_if (covers qty existing) Error.expansion_active
  id ← new_id
  let cost = expansion_cost qty days existing
  let expansion : DeviceExpansion = record { id = id; extra_devices = qty; expires_at = expires_at }
  when (ltb 0 cost) (adjust_yad_balance user_id (neg (pos cost)) YadTxType.spent (some id))
  create_device_expansion user_id expansion
  increment_device_expansion_count user_id
  pure expansion

-- `BuyDeviceExpansion`
unfoldable pub buy_device_expansion : ℕ → ℕ → Exec DeviceExpansion
unfolding try_buy_device_expansion
buy_device_expansion user_id qty = do
  fail_if (ltb qty 1 || ltb device_expansion_max_extra qty) Error.bad_quantity
  active ← get_active_subscription user_id
  on_option active (raise Error.no_subscription) λ (sub_id, sub). do
    user ← require_user user_id
    t ← now
    expansion ←
        retry 2
          (try_buy_device_expansion user_id qty (days_remaining sub.expires_at t) sub.expires_at)
    when (not (is_blank user.remna_user_uuid)) (
        ignore (
          remna (
            RemnaCall.update_hwid_device_limit (text_or_empty user.remna_user_uuid)
              (device_max_per_user + expansion.extra_devices))))
    pure expansion
