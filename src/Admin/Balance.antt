-- ===== src/Admin/Balance.antt =====
-- The operations of an administrator keep the ledger balanced.
use testmellow.Prelude.{ℕ, Option, Bool}
use testmellow.Prelude.Int.{ℤ}
use testmellow.Domain.{SubscriptionPlan, SubscriptionStatus, PromoType}
use testmellow.World.Rows.{Db}
use testmellow.World.Keeps.{Keeps, keeps_rules}
use testmellow.World.KeepsOk.{Keeps-transaction_ok}
use testmellow.Redis.Reads.{set_ban_key-Keeps}
use testmellow.Repo.Accounts.{get_by_username}
use testmellow.Repo.Subscriptions.{get_subscription_by_id, set_status, extend_subscription_by_days}
use testmellow.Ledger.{IsBalanced}
use testmellow.Ledger.Statements.{adjust_yad_balance-IsBalanced}
use testmellow.Ledger.Users.{user_rules}
use testmellow.Ledger.Tables.{table_rules, same-IsBalanced}
use testmellow.Ledger.Profiles.{profile_rules}
use testmellow.Economy.Balance.{sync_purchase-IsBalanced}
use testmellow.Billing.Gateway.{Gateway}
use testmellow.Admin.{
  audit, adjust_user_yad, ban_user, unban_user, set_risk_score, check_payment, assign_sub_in_tx,
  assign_subscription, set_subscription_status, extend_subscription,
}
use testmellow.Admin.Catalog.{
  CreatePromo, insert_promo_code, create_promo_code, create_shop_item, reset_rate_limit,
  reset_payment_limit,
}
use testmellow.Redis.Limits.Reads.{script-Keeps}

audit-Keeps : {Q : Db → Type 0} → Keeps Q audit
unfolding audit
audit-Keeps = search keeps_rules

ruleset admin_rules =
    (keeps_rules, user_rules, table_rules, profile_rules, audit-Keeps, set_ban_key-Keeps)

get_by_username-Keeps : {Q : Db → Type 0} (name : ℕ) → Keeps Q (get_by_username name)
unfolding get_by_username
get_by_username-Keeps name = search keeps_rules

get_subscription-Keeps : {Q : Db → Type 0} (id : ℕ) → Keeps Q (get_subscription_by_id id)
unfolding get_subscription_by_id
get_subscription-Keeps id = search keeps_rules

set_status-IsBalanced : (id : ℕ) (s : SubscriptionStatus) → Keeps IsBalanced (set_status id s)
unfolding set_status
set_status-IsBalanced id s = search (keeps_rules, same-IsBalanced) depth 12

extend-IsBalanced : (id days : ℕ) → Keeps IsBalanced (extend_subscription_by_days id days)
unfolding extend_subscription_by_days
extend-IsBalanced id days = search (keeps_rules, same-IsBalanced) depth 12

pub adjust_user_yad-IsBalanced :
    (id : ℕ) (delta : ℤ) (n : ℕ) → Keeps IsBalanced (adjust_user_yad id delta n)
unfolding adjust_user_yad
adjust_user_yad-IsBalanced id delta n =
    search (admin_rules, Keeps-transaction_ok, adjust_yad_balance-IsBalanced) depth 14

pub ban_user-IsBalanced : (id : ℕ) → Keeps IsBalanced (ban_user id)
unfolding ban_user
ban_user-IsBalanced id = search admin_rules depth 12

pub unban_user-IsBalanced : (id : ℕ) → Keeps IsBalanced (unban_user id)
unfolding unban_user
unban_user-IsBalanced id = search admin_rules depth 12

pub set_risk_score-IsBalanced : (id : ℕ) (s : ℤ) → Keeps IsBalanced (set_risk_score id s)
unfolding set_risk_score
set_risk_score-IsBalanced id s = search admin_rules depth 12

pub check_payment-IsBalanced : (g : Gateway) (id : ℕ) → Keeps IsBalanced (check_payment g id)
unfolding check_payment
check_payment-IsBalanced g id = search admin_rules depth 24

assign_sub_in_tx-IsBalanced :
    (id : ℕ) (plan : SubscriptionPlan) (days t : ℕ)
    → Keeps IsBalanced (assign_sub_in_tx id plan days t)
unfolding assign_sub_in_tx
assign_sub_in_tx-IsBalanced id plan days t = search admin_rules depth 16

pub assign_subscription-IsBalanced :
    (login : ℕ) (plan : SubscriptionPlan) → Keeps IsBalanced (assign_subscription login plan)
unfolding assign_subscription
assign_subscription-IsBalanced login plan =
    search
      (admin_rules, get_by_username-Keeps, assign_sub_in_tx-IsBalanced, sync_purchase-IsBalanced)
      depth 20

pub set_subscription_status-IsBalanced :
    (id : ℕ) (s : SubscriptionStatus) → Keeps IsBalanced (set_subscription_status id s)
unfolding set_subscription_status
set_subscription_status-IsBalanced id s =
    search (admin_rules, get_subscription-Keeps, set_status-IsBalanced) depth 20

pub extend_subscription-IsBalanced : (id days : ℕ) → Keeps IsBalanced (extend_subscription id days)
unfolding extend_subscription
extend_subscription-IsBalanced id days = search (admin_rules, extend-IsBalanced) depth 12

insert_promo_code-IsBalanced :
    (id author : ℕ) (r : CreatePromo) (t : PromoType) (e : Option ℕ)
    → Keeps IsBalanced (insert_promo_code id author r t e)
unfolding insert_promo_code
insert_promo_code-IsBalanced id author r t e = search (keeps_rules, same-IsBalanced) depth 12

pub create_promo_code-IsBalanced :
    (id : ℕ) (r : CreatePromo) → Keeps IsBalanced (create_promo_code id r)
unfolding create_promo_code
create_promo_code-IsBalanced id r = search (admin_rules, insert_promo_code-IsBalanced) depth 16

pub create_shop_item-IsBalanced :
    (v : Bool) (price stock : ℤ) → Keeps IsBalanced (create_shop_item v price stock)
unfolding create_shop_item
create_shop_item-IsBalanced v price stock = search (admin_rules, same-IsBalanced) depth 16

pub reset_payment_limit-IsBalanced : (id : ℕ) → Keeps IsBalanced (reset_payment_limit id)
unfolding reset_payment_limit reset_rate_limit
reset_payment_limit-IsBalanced id = search (admin_rules, script-Keeps) depth 12
