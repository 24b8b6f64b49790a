-- ===== src/Worker/Balance.antt =====
-- The ledger stays balanced under every job of the worker, whatever fails.
use testmellow.Prelude.{ℕ}
use testmellow.Prelude.Int.{ℤ}
use testmellow.Domain.{SubscriptionPlan, PaymentStatus}
use testmellow.World.Rows.{Db, User, Payment, Referral, ReferralReward, DeviceExpansion}
use testmellow.World.Keeps.{Keeps, keeps_rules, reads_rules, Keeps-pure}
use testmellow.World.KeepsOk.{KeepsOk, ok_rules, Keeps-atomically_ok, Keeps-transaction_ok}
use testmellow.Redis.Limits.Reads.{script-Keeps}
use testmellow.Redis.Store.{Key}
use testmellow.Redis.Once.{set_nx, try_lock, unlock}
use testmellow.Ledger.{IsBalanced}
use testmellow.Ledger.Statements.{adjust_yad_balance-IsBalanced}
use testmellow.Ledger.Clawback.{clawback_yad-IsBalanced}
use testmellow.Ledger.Users.{user_rules}
use testmellow.Ledger.Tables.{table_rules}
use testmellow.Economy.Balance.{refresh_account-Keeps, recover_user-Keeps, require_user-IsBalanced}
use testmellow.Worker.Payment.{
  enqueue_notify, process_confirmed_payment, revert_purchase, revert_reward, revert_accounting,
  process_reverted_payment, dispatch_payment, handle_payment_process,
}
use testmellow.Worker.Activation.{
  extend_or_create_sub, sync_activation, credit_bonus, handle_subscription_activate,
  commit_expansion, announce_expansion, handle_device_expansion_activate,
}
use testmellow.Worker.Sweep.{disable_expired, reset_limit, sweep_expired}
use testmellow.Repo.Subscriptions.{get_expired_subscription_user_ids}
use testmellow.Worker.Rewards.{
  pay_reward, require_referrer, handle_referral_reward, pay_out, handle_referral_payout,
  sweep_reward, payout_pending_rewards,
}

module _ {Q : Db → Type 0} where
  pub set_nx-Keeps : (k : Key) (v ttl : ℕ) → Keeps Q (set_nx k v ttl)
  unfolding set_nx
  set_nx-Keeps k v ttl = script-Keeps _

  pub try_lock-Keeps : (k : Key) (ttl : ℕ) → Keeps Q (try_lock k ttl)
  unfolding try_lock
  try_lock-Keeps k ttl = search (reads_rules, set_nx-Keeps)

  pub unlock-Keeps : (k : Key) (token : ℕ) → Keeps Q (unlock k token)
  unfolding unlock
  unlock-Keeps k token = script-Keeps _

  enqueue_notify-Keeps : (id : ℕ) → Keeps Q (enqueue_notify id)
  unfolding enqueue_notify
  enqueue_notify-Keeps id = search reads_rules

ruleset worker_rules = (
  keeps_rules, user_rules, table_rules, set_nx-Keeps, try_lock-Keeps, unlock-Keeps,
  enqueue_notify-Keeps, refresh_account-Keeps, recover_user-Keeps, require_user-IsBalanced,
)

process_confirmed_payment-IsBalanced :
    (tx id : ℕ) (p : Payment) → Keeps IsBalanced (process_confirmed_payment tx id p)
unfolding process_confirmed_payment
process_confirmed_payment-IsBalanced tx id p = search worker_rules depth 20

revert_purchase-IsBalanced :
    (id : ℕ) (plan : SubscriptionPlan) → Keeps IsBalanced (revert_purchase id plan)
unfolding revert_purchase
revert_purchase-IsBalanced id plan = search worker_rules depth 20

revert_reward-IsBalanced : (tx : ℕ) → KeepsOk IsBalanced (revert_reward tx)
unfolding revert_reward
revert_reward-IsBalanced tx =
    search (ok_rules, reads_rules, table_rules, clawback_yad-IsBalanced) depth 20

revert_accounting-IsBalanced :
    (tx id : ℕ) (p : Payment) (s : PaymentStatus) → Keeps IsBalanced (revert_accounting tx id p s)
unfolding revert_accounting
revert_accounting-IsBalanced tx id p s = Keeps-transaction_ok _ (
    search
      (
        ok_rules, Keeps-pure, user_rules, table_rules, revert_purchase-IsBalanced,
        revert_reward-IsBalanced,
      )
      depth 20)

process_reverted_payment-IsBalanced :
    (tx id : ℕ) (p : Payment) (s : PaymentStatus)
    → Keeps IsBalanced (process_reverted_payment tx id p s)
unfolding process_reverted_payment
process_reverted_payment-IsBalanced tx id p s =
    search (worker_rules, revert_accounting-IsBalanced) depth 24

dispatch_payment-IsBalanced :
    (tx id : ℕ) (p : Payment) (s : PaymentStatus) → Keeps IsBalanced (dispatch_payment tx id p s)
unfolding dispatch_payment
dispatch_payment-IsBalanced tx id p PaymentStatus.confirmed =
    search (worker_rules, process_confirmed_payment-IsBalanced) depth 12
dispatch_payment-IsBalanced tx id p PaymentStatus.canceled =
    process_reverted_payment-IsBalanced tx id p _
dispatch_payment-IsBalanced tx id p PaymentStatus.chargebacked =
    process_reverted_payment-IsBalanced tx id p _
dispatch_payment-IsBalanced tx id p s = search worker_rules depth 12

pub handle_payment_process-IsBalanced :
    (tx id : ℕ) (s : PaymentStatus) → Keeps IsBalanced (handle_payment_process tx id s)
unfolding handle_payment_process
handle_payment_process-IsBalanced tx id s =
    search (worker_rules, dispatch_payment-IsBalanced) depth 12

sync_activation-IsBalanced :
    (id : ℕ) (u : User) (expiry : ℕ) → Keeps IsBalanced (sync_activation id u expiry)
unfolding sync_activation
sync_activation-IsBalanced id u expiry = search worker_rules depth 20

credit_bonus-IsBalanced :
    (id : ℕ) (plan : SubscriptionPlan) → Keeps IsBalanced (credit_bonus id plan)
unfolding credit_bonus
credit_bonus-IsBalanced id plan =
    search (worker_rules, ok_rules, Keeps-transaction_ok, adjust_yad_balance-IsBalanced) depth 12

extend_or_create_sub-IsBalanced :
    (id pay : ℕ) (plan : SubscriptionPlan) (days paid now : ℕ)
    → Keeps IsBalanced (extend_or_create_sub id pay plan days paid now)
unfolding extend_or_create_sub
extend_or_create_sub-IsBalanced id pay plan days paid now = search worker_rules depth 12

pub handle_subscription_activate-IsBalanced :
    (id pay : ℕ) (plan : SubscriptionPlan) (amount : ℕ)
    → Keeps IsBalanced (handle_subscription_activate id pay plan amount)
unfolding handle_subscription_activate
handle_subscription_activate-IsBalanced id pay plan amount =
    search
      (
        worker_rules, extend_or_create_sub-IsBalanced, sync_activation-IsBalanced,
        credit_bonus-IsBalanced,
      )
      depth 20

commit_expansion-IsBalanced :
    (id : ℕ) (e : DeviceExpansion) → Keeps IsBalanced (commit_expansion id e)
unfolding commit_expansion
commit_expansion-IsBalanced id e = search worker_rules depth 12

announce_expansion-IsBalanced : (id qty : ℕ) → Keeps IsBalanced (announce_expansion id qty)
unfolding announce_expansion
announce_expansion-IsBalanced id qty = search worker_rules depth 12

pub handle_device_expansion_activate-IsBalanced :
    (id pay qty : ℕ) → Keeps IsBalanced (handle_device_expansion_activate id pay qty)
unfolding handle_device_expansion_activate
handle_device_expansion_activate-IsBalanced id pay qty =
    search (worker_rules, commit_expansion-IsBalanced, announce_expansion-IsBalanced) depth 20

pay_reward-IsBalanced :
    (pay ref : ℕ) (r : Referral) (risk : ℤ) (paid total : ℕ)
    → Keeps IsBalanced (pay_reward pay ref r risk paid total)
unfolding pay_reward
pay_reward-IsBalanced pay ref r risk paid total =
    search (worker_rules, ok_rules, Keeps-transaction_ok, adjust_yad_balance-IsBalanced) depth 20

require_referrer-IsBalanced : (id : ℕ) → Keeps IsBalanced (require_referrer id)
unfolding require_referrer
require_referrer-IsBalanced id = search worker_rules depth 12

pub handle_referral_reward-IsBalanced :
    (pay id paid : ℕ) → Keeps IsBalanced (handle_referral_reward pay id paid)
unfolding handle_referral_reward
handle_referral_reward-IsBalanced pay id paid =
    search (worker_rules, pay_reward-IsBalanced, require_referrer-IsBalanced) depth 20

pay_out-IsBalanced : (reward : ℕ) → Keeps IsBalanced (pay_out reward)
unfolding pay_out
pay_out-IsBalanced reward =
    search (worker_rules, ok_rules, Keeps-atomically_ok, adjust_yad_balance-IsBalanced) depth 24

pub handle_referral_payout-IsBalanced :
    (reward : ℕ) → Keeps IsBalanced (handle_referral_payout reward)
unfolding handle_referral_payout
handle_referral_payout-IsBalanced reward = search (worker_rules, pay_out-IsBalanced) depth 20

sweep_reward-IsBalanced : (r : ℕ × ReferralReward) → Keeps IsBalanced (sweep_reward r)
unfolding sweep_reward
sweep_reward-IsBalanced (id, r) =
    search (worker_rules, ok_rules, Keeps-transaction_ok, adjust_yad_balance-IsBalanced) depth 24

pub payout_pending_rewards-IsBalanced : Keeps IsBalanced payout_pending_rewards
unfolding payout_pending_rewards
payout_pending_rewards-IsBalanced = search (worker_rules, sweep_reward-IsBalanced) depth 12

disable_expired-IsBalanced : (id : ℕ) → Keeps IsBalanced (disable_expired id)
unfolding disable_expired
disable_expired-IsBalanced id = search worker_rules depth 12

reset_limit-IsBalanced : (id : ℕ) → Keeps IsBalanced (reset_limit id)
unfolding reset_limit
reset_limit-IsBalanced id = search worker_rules depth 12

expired_ids-IsBalanced : Keeps IsBalanced get_expired_subscription_user_ids
unfolding get_expired_subscription_user_ids
expired_ids-IsBalanced = search worker_rules depth 12

pub sweep_expired-IsBalanced : Keeps IsBalanced sweep_expired
unfolding sweep_expired
sweep_expired-IsBalanced =
    search
      (worker_rules, expired_ids-IsBalanced, disable_expired-IsBalanced, reset_limit-IsBalanced)
      depth 20
