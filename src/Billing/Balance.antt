-- ===== src/Billing/Balance.antt =====
-- Checkouts, status checks, the webhook and the sweeps keep the ledger balanced.
use testmellow.Prelude.{ℕ, Option}
use testmellow.Domain.{SubscriptionPlan, PaymentStatus}
use testmellow.World.Rows.{Db, Payment}
use testmellow.World.Exec.{Error, Exec}
use testmellow.World.Keeps.{Keeps, keeps_rules, Keeps-raise}
use testmellow.Redis.Store.{Key}
use testmellow.Redis.Once.{delete_key}
use testmellow.Redis.Limits.Reads.{check_rate_limit-Keeps, increment-Keeps, script-Keeps}
use testmellow.Repo.Payments.{get_stale_pending_payments}
use testmellow.Ledger.{IsBalanced}
use testmellow.Ledger.Users.{user_rules}
use testmellow.Ledger.Tables.{table_rules}
use testmellow.Economy.Balance.{require_user-IsBalanced}
use testmellow.Worker.Balance.{set_nx-Keeps}
use testmellow.Billing.Gateway.{Gateway, GatewayConfig}
use testmellow.Billing.Checkout.{
  store_payment, recover_winner, free_payment, charge, initiate_payment,
  initiate_device_expansion_payment,
}
use testmellow.Billing.Status.{
  touch, get_own_payment, check_payment_status, adopt_status, sync_payment, sync_stale_payments,
  sweep_payments,
}
use testmellow.Billing.Webhook.{Callback, handle, process_event, enqueue_payment}

ruleset billing_rules = (
  keeps_rules, user_rules, table_rules, check_rate_limit-Keeps, increment-Keeps, set_nx-Keeps,
  script-Keeps, require_user-IsBalanced,
)

recover_winner-IsBalanced :
    (id : ℕ) (p : SubscriptionPlan) (e : Error) → Keeps IsBalanced (recover_winner id p e)
unfolding recover_winner
recover_winner-IsBalanced id p Error.unique_violation = search billing_rules depth 12
recover_winner-IsBalanced id p e = Keeps-raise _

store_payment-IsBalanced :
    (tx id : ℕ) (p : Payment) (m : Exec (Unit {0}))
    → Keeps IsBalanced m
    → Keeps IsBalanced (store_payment tx id p m)
unfolding store_payment
store_payment-IsBalanced tx id p m k = search (billing_rules, recover_winner-IsBalanced) depth 12

free_payment-IsBalanced :
    (id : ℕ) (p : SubscriptionPlan) (url code : ℕ) → Keeps IsBalanced (free_payment id p url code)
unfolding free_payment
free_payment-IsBalanced id p url code = search billing_rules depth 20

module _ (g : Gateway) where
  charge-IsBalanced :
      (id : ℕ) (p : SubscriptionPlan) (price qty : ℕ) (m : Exec (Unit {0}))
      → Keeps IsBalanced m
      → Keeps IsBalanced (charge g id p price qty m)
  unfolding charge
  charge-IsBalanced id p price qty m k = search (billing_rules, store_payment-IsBalanced) depth 20

  pub initiate_payment-IsBalanced :
      (id : ℕ) (p : SubscriptionPlan) (url : ℕ) → Keeps IsBalanced (initiate_payment g id p url)
  unfolding initiate_payment
  initiate_payment-IsBalanced id p url =
      search (billing_rules, free_payment-IsBalanced, charge-IsBalanced) depth 20

  pub initiate_device_expansion_payment-IsBalanced :
      (id qty : ℕ) → Keeps IsBalanced (initiate_device_expansion_payment g id qty)
  unfolding initiate_device_expansion_payment
  initiate_device_expansion_payment-IsBalanced id qty =
      search (billing_rules, charge-IsBalanced) depth 20

get_own_payment-IsBalanced : (id pay : ℕ) → Keeps IsBalanced (get_own_payment id pay)
unfolding get_own_payment
get_own_payment-IsBalanced id pay = search billing_rules depth 12

pub touch-IsBalanced : (id pay : ℕ) → Keeps IsBalanced (touch id pay)
unfolding touch
touch-IsBalanced id pay = search (billing_rules, get_own_payment-IsBalanced) depth 12

adopt_status-IsBalanced :
    (pay : ℕ) (p : Payment) (s : PaymentStatus) → Keeps IsBalanced (adopt_status pay p s)
unfolding adopt_status
adopt_status-IsBalanced pay p s = search billing_rules depth 20

delete_key-Keeps : {Q : Db → Type 0} (k : Key) → Keeps Q (delete_key k)
unfolding delete_key
delete_key-Keeps k = script-Keeps _

stale-IsBalanced : Keeps IsBalanced get_stale_pending_payments
unfolding get_stale_pending_payments
stale-IsBalanced = search billing_rules depth 12

module _ (g : Gateway) where
  pub check_payment_status-IsBalanced :
      (id pay : ℕ) → Keeps IsBalanced (check_payment_status g id pay)
  unfolding check_payment_status
  check_payment_status-IsBalanced id pay =
      search (billing_rules, get_own_payment-IsBalanced, adopt_status-IsBalanced) depth 20

  sync_payment-IsBalanced : (r : ℕ × Payment) → Keeps IsBalanced (sync_payment g r)
  unfolding sync_payment
  sync_payment-IsBalanced (id, p) =
      search (billing_rules, delete_key-Keeps, adopt_status-IsBalanced) depth 20

  sync_stale_payments-IsBalanced : Keeps IsBalanced (sync_stale_payments g)
  unfolding sync_stale_payments
  sync_stale_payments-IsBalanced =
      search (billing_rules, stale-IsBalanced, sync_payment-IsBalanced) depth 20

  pub sweep_payments-IsBalanced : Keeps IsBalanced (sweep_payments g)
  unfolding sweep_payments
  sweep_payments-IsBalanced = search (billing_rules, sync_stale_payments-IsBalanced) depth 12

  enqueue_payment-IsBalanced :
      (cb : Callback) (pay : ℕ) (p : Payment) → Keeps IsBalanced (enqueue_payment cb pay p)
  unfolding enqueue_payment
  enqueue_payment-IsBalanced cb pay p = search billing_rules depth 20

  process_event-IsBalanced : (cb : Callback) → Keeps IsBalanced (process_event g cb)
  unfolding process_event
  process_event-IsBalanced cb = search (billing_rules, enqueue_payment-IsBalanced) depth 20

  pub handle-IsBalanced :
      (cfg : GatewayConfig) (m s : ℕ) (b : Option Callback) → Keeps IsBalanced (handle g cfg m s b)
  unfolding handle
  handle-IsBalanced cfg m s b = search (billing_rules, process_event-IsBalanced) depth 20
