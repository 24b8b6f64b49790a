-- ===== src/Worker/Payment.antt =====
-- worker.go: `handlePaymentProcess` and the two paths behind it.
use testmellow.Prelude.{
  ℕ, Bool, true, false, ◌&&◌, not, Option, none, some, ltb, ◌==◌, if◌then◌else◌,
}
use testmellow.Prelude.Int.{pos, neg}
use testmellow.Domain.{
  PaymentStatus, SubscriptionPlan, payment_status_eq, plan_duration_days, is_device_expansion_plan,
  device_max_per_user,
}
use testmellow.World.Rows.{User, Payment, Job, RemnaCall}
use testmellow.World.Exec.{
  Error, Result, ok, err, Exec, pure, raise, gets, attempt, ◌>>=◌, ◌>>◌, on_option, on_result, when,
  enqueue, remna, transaction, ignore,
}
use testmellow.Redis.Once.{pay_processed_key, set_nx}
use testmellow.Remnawave.{text_or_empty}
use testmellow.Repo.Users.{get_by_id, lock_user_for_update, update_ltv, clawback_yad}
use testmellow.Repo.Subscriptions.{lock_latest_subscription, contract_subscription_by_duration}
use testmellow.Repo.Payments.{get_payment_by_id, update_payment_status}
use testmellow.Repo.Rewards.{get_reward_by_payment_id, revert_referral_reward}
use testmellow.Repo.Expansions.{delete_device_expansion_for_user}

-- `allowedPaidPlans`
unfoldable pub is_allowed_paid_plan : SubscriptionPlan → Bool
is_allowed_paid_plan SubscriptionPlan.ninety_nine_years = false
is_allowed_paid_plan (SubscriptionPlan.other n) = false
is_allowed_paid_plan p = true

-- `enqueueNotify`
unfoldable pub enqueue_notify : ℕ → Exec (Unit {0})
enqueue_notify telegram_id = do
  enabled ← gets (λ w. w.telegram_enabled)
  when (not (telegram_id == 0) && enabled) (ignore (enqueue (Job.notify_telegram telegram_id)))

abbrev pub user_or_nil : Result (Option User) → Option User
user_or_nil (ok o) = o
user_or_nil (err e) = none

abbrev pub telegram_of : Option User → Option ℕ
telegram_of none = none
telegram_of (some u) = u.telegram_id

-- The panel account of a user, "" if there is none.
abbrev pub account_of : Option User → ℕ
account_of none = 0
account_of (some u) = text_or_empty u.remna_user_uuid

-- `qty := 1; if payment.AddonQty > 0 { qty = payment.AddonQty }`
abbrev expansion_qty : Payment → ℕ
expansion_qty p = if ltb 0 p.addon_qty then p.addon_qty else 1

unfoldable pub activation_job : ℕ → ℕ → Payment → Job
activation_job tx_id user_id p =
    if is_device_expansion_plan p.plan
    then Job.device_expansion_activate user_id tx_id (expansion_qty p) p.amount_kopecks
    else Job.subscription_activate user_id tx_id p.plan p.amount_kopecks

-- `processConfirmedPayment`
unfoldable pub process_confirmed_payment : ℕ → ℕ → Payment → Exec (Unit {0})
unfolding activation_job
process_confirmed_payment tx_id user_id p = do
  transaction do
    lock_user_for_update user_id
    update_payment_status tx_id PaymentStatus.confirmed
    update_ltv user_id (pos p.amount_kopecks)
  ignore (enqueue (activation_job tx_id user_id p))
  when (ltb 0 p.amount_kopecks)
      (ignore (enqueue (Job.referral_reward tx_id user_id p.amount_kopecks)))

-- The subscription, or the expansion, that the payment bought; whether a subscription has ended.
unfoldable pub revert_purchase : ℕ → SubscriptionPlan → Exec Bool
revert_purchase user_id plan =
    if is_device_expansion_plan plan
    then (do delete_device_expansion_for_user user_id; pure false)
    else (do
      sub ← lock_latest_subscription user_id
      on_option sub (pure false) λ (sub_id, s).
          if ltb 0 (plan_duration_days plan)
          then (do
            r ← contract_subscription_by_duration sub_id (plan_duration_days plan)
            pure (r.1))
          else pure false)

-- The referral reward; an error of the lookup is skipped.
unfoldable pub revert_reward : ℕ → Exec (Unit {0})
revert_reward tx_id = do
  found ← attempt (get_reward_by_payment_id tx_id)
  on_result found (λ _. pure tt)
      λ row. on_option row (pure tt) λ (reward_id, r). do
        reverted ← revert_referral_reward reward_id
        when (reverted && ltb 0 r.immediate_yad)
            (do clawback_yad r.referrer_id r.immediate_yad (some reward_id); pure tt)

unfoldable pub was_confirmed : Payment → Bool
was_confirmed p = payment_status_eq p.status PaymentStatus.confirmed

-- The transaction of `processRevertedPayment`.
unfoldable pub revert_accounting : ℕ → ℕ → Payment → PaymentStatus → Exec Bool
unfolding revert_purchase revert_reward was_confirmed
revert_accounting tx_id user_id p new_status = transaction do
  lock_user_for_update user_id
  update_payment_status tx_id new_status
  if was_confirmed p
      then (do
        update_ltv user_id (neg (pos p.amount_kopecks))
        ended ← revert_purchase user_id p.plan
        revert_reward tx_id
        pure ended)
      else pure false

-- `processRevertedPayment`
unfoldable pub process_reverted_payment : ℕ → ℕ → Payment → PaymentStatus → Exec (Unit {0})
unfolding revert_accounting enqueue_notify
process_reverted_payment tx_id user_id p new_status = do
  ended ← revert_accounting tx_id user_id p new_status
  row ← attempt (get_by_id user_id)
  let user = user_or_nil row
  when (ended && not (account_of user == 0)) do
    ignore (remna (RemnaCall.disable_user (account_of user)))
    ignore (remna (RemnaCall.update_hwid_device_limit (account_of user) device_max_per_user))
  when (was_confirmed p && is_device_expansion_plan p.plan && not (account_of user == 0))
      (ignore (remna (RemnaCall.update_hwid_device_limit (account_of user) device_max_per_user)))
  on_option (telegram_of user) (pure tt) enqueue_notify

-- The switch of `handlePaymentProcess`.
unfoldable pub dispatch_payment : ℕ → ℕ → Payment → PaymentStatus → Exec (Unit {0})
unfolding process_confirmed_payment process_reverted_payment
dispatch_payment tx_id user_id p PaymentStatus.confirmed =
    if is_allowed_paid_plan p.plan
    then process_confirmed_payment tx_id user_id p
    else ignore (transaction (update_payment_status tx_id PaymentStatus.confirmed))
dispatch_payment tx_id user_id p PaymentStatus.canceled =
    process_reverted_payment tx_id user_id p PaymentStatus.canceled
dispatch_payment tx_id user_id p PaymentStatus.chargebacked =
    process_reverted_payment tx_id user_id p PaymentStatus.chargebacked
dispatch_payment tx_id user_id p status = transaction (update_payment_status tx_id status)

-- `handlePaymentProcess`
unfoldable pub handle_payment_process : ℕ → ℕ → PaymentStatus → Exec (Unit {0})
unfolding dispatch_payment
handle_payment_process tx_id user_id status = do
  is_new ← set_nx (pay_processed_key tx_id status) 1 172800
  if is_new
      then (do
        payment ← get_payment_by_id tx_id
        on_option payment (raise Error.payment_not_found)
            λ p. dispatch_payment tx_id user_id p status)
      else pure tt
