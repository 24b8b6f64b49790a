-- ===== src/Economy/Balance.antt =====
-- The ledger stays balanced under every operation of the service, whatever fails.
use testmellow.Prelude.{ℕ, Option}
use testmellow.Prelude.Int.{ℤ}
use testmellow.Domain.{SubscriptionPlan, YadTxType, PromoType}
use testmellow.World.Rows.{Db, User, PromoCode}
use testmellow.World.Keeps.{Keeps, keeps_rules}
use testmellow.World.KeepsOk.{ok_rules, Keeps-transaction_ok, KeepsOk-of_Keeps, KeepsOk-bind}
use testmellow.Redis.Limits.Reads.{check_and_add_daily_yad_credit-Keeps}
use testmellow.Remnawave.{recover_user, refresh_account}
use testmellow.Ledger.{IsBalanced}
use testmellow.Ledger.Statements.{adjust_yad_balance-IsBalanced}
use testmellow.Ledger.Users.{user_rules}
use testmellow.Ledger.Tables.{table_rules}
use testmellow.Economy.Accounts.{
  require_user, credit_yad, debit_yad, apply_promo, redeem_promo, buy_shop_item,
}
use testmellow.Economy.Plans.{
  try_buy_with_yad, sync_purchase, buy_subscription_with_yad, try_buy_device_expansion,
  buy_device_expansion,
}

ruleset ledger_rules = (keeps_rules, user_rules, table_rules, check_and_add_daily_yad_credit-Keeps)

pub require_user-IsBalanced : (id : ℕ) → Keeps IsBalanced (require_user id)
unfolding require_user
require_user-IsBalanced id = search ledger_rules depth 12

pub credit_yad-IsBalanced :
    (id : ℕ) (x : ℤ) (ty : YadTxType) (r : Option ℕ) → Keeps IsBalanced (credit_yad id x ty r)
unfolding credit_yad
credit_yad-IsBalanced id x ty r =
    search (ledger_rules, Keeps-transaction_ok, adjust_yad_balance-IsBalanced) depth 12

pub debit_yad-IsBalanced :
    (id : ℕ) (x : ℤ) (ty : YadTxType) (r : Option ℕ) → Keeps IsBalanced (debit_yad id x ty r)
unfolding debit_yad
debit_yad-IsBalanced id x ty r =
    search (ledger_rules, Keeps-transaction_ok, adjust_yad_balance-IsBalanced) depth 12

apply_promo-IsBalanced :
    (id promo_id : ℕ) (p : PromoCode) (ty : PromoType)
    → Keeps IsBalanced (apply_promo id promo_id p ty)
unfolding apply_promo
apply_promo-IsBalanced id promo_id p PromoType.discount = search ledger_rules depth 12
apply_promo-IsBalanced id promo_id p PromoType.yad =
    search
      (
        Keeps-transaction_ok, KeepsOk-bind, KeepsOk-of_Keeps, table_rules,
        adjust_yad_balance-IsBalanced,
      )
      depth 12

pub redeem_promo-IsBalanced : (id code : ℕ) → Keeps IsBalanced (redeem_promo id code)
unfolding redeem_promo
redeem_promo-IsBalanced id code = search (ledger_rules, apply_promo-IsBalanced) depth 20

pub buy_shop_item-IsBalanced :
    (id item quantity : ℕ) → Keeps IsBalanced (buy_shop_item id item quantity)
unfolding buy_shop_item
buy_shop_item-IsBalanced id item quantity =
    search
      (
        ledger_rules, require_user-IsBalanced, Keeps-transaction_ok, ok_rules,
        adjust_yad_balance-IsBalanced,
      )
      depth 20

try_buy_with_yad-IsBalanced :
    (user_id : ℕ) (plan : SubscriptionPlan) (days sub_id remna_uuid price now : ℕ)
    → Keeps IsBalanced (try_buy_with_yad user_id plan days sub_id remna_uuid price now)
unfolding try_buy_with_yad
try_buy_with_yad-IsBalanced u p d s r x n =
    search (ledger_rules, Keeps-transaction_ok, ok_rules, adjust_yad_balance-IsBalanced) depth 20

pub refresh_account-Keeps :
    {Q : Db → Type 0} (uuid expiry : ℕ) → Keeps Q (refresh_account uuid expiry)
unfolding refresh_account
refresh_account-Keeps uuid expiry = search keeps_rules

pub recover_user-Keeps : {Q : Db → Type 0} (name id : ℕ) → Keeps Q (recover_user name id)
unfolding recover_user
recover_user-Keeps name id = search keeps_rules depth 12

pub sync_purchase-IsBalanced :
    (id : ℕ) (u : User) (expiry : ℕ) → Keeps IsBalanced (sync_purchase id u expiry)
unfolding sync_purchase
sync_purchase-IsBalanced id u expiry =
    search (ledger_rules, refresh_account-Keeps, recover_user-Keeps) depth 20

pub buy_subscription_with_yad-IsBalanced :
    (id : ℕ) (plan : SubscriptionPlan) → Keeps IsBalanced (buy_subscription_with_yad id plan)
unfolding buy_subscription_with_yad
buy_subscription_with_yad-IsBalanced id plan =
    search
      (ledger_rules, require_user-IsBalanced, try_buy_with_yad-IsBalanced, sync_purchase-IsBalanced)
      depth 20

try_buy_device_expansion-IsBalanced :
    (user_id qty days expires_at : ℕ)
    → Keeps IsBalanced (try_buy_device_expansion user_id qty days expires_at)
unfolding try_buy_device_expansion
try_buy_device_expansion-IsBalanced id qty days expires_at =
    search (ledger_rules, Keeps-transaction_ok, ok_rules, adjust_yad_balance-IsBalanced) depth 20

pub buy_device_expansion-IsBalanced : (id qty : ℕ) → Keeps IsBalanced (buy_device_expansion id qty)
unfolding buy_device_expansion
buy_device_expansion-IsBalanced id qty =
    search (ledger_rules, require_user-IsBalanced, try_buy_device_expansion-IsBalanced) depth 20
