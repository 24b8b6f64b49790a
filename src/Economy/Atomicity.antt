-- ===== src/Economy/Atomicity.antt =====
-- Which operations of the service change nothing in the database when they return an error.
use testmellow.Prelude.{ℕ, ◌≡◌, Option}
use testmellow.Prelude.Int.{ℤ}
use testmellow.Domain.{SubscriptionPlan, YadTxType}
use testmellow.World.Rows.{Db, User}
use testmellow.World.Exec.{Error, err, World}
use testmellow.World.Keeps.{Keeps, reads_rules}
use testmellow.World.Atomic.{
  IsAtomic, IsAtomic-of_reads, IsAtomic-transaction, IsAtomic-bind, IsAtomic-bind_Succeeds,
  IsAtomic-if, IsAtomic-on_option, IsAtomic-retry, Succeeds, succeeds_rules,
}
use testmellow.Redis.Limits.Reads.{check_and_add_daily_yad_credit-Keeps}
use testmellow.Remnawave.{recover_user, refresh_account}
use testmellow.Repo.Users.{get_by_id}
use testmellow.Repo.Shop.{get_shop_item_by_id}
use testmellow.Repo.Subscriptions.{get_active_subscription}
use testmellow.Economy.Accounts.{require_user, credit_yad, debit_yad, buy_shop_item}
use testmellow.Economy.Plans.{sync_purchase, buy_subscription_with_yad, buy_device_expansion}

module _ {Q : Db → Type 0} where
  pub require_user-Keeps : (id : ℕ) → Keeps Q (require_user id)
  unfolding require_user get_by_id
  require_user-Keeps id = search reads_rules depth 12

  pub get_shop_item-Keeps : (id : ℕ) → Keeps Q (get_shop_item_by_id id)
  unfolding get_shop_item_by_id
  get_shop_item-Keeps id = search reads_rules

  pub get_active_subscription-Keeps : (id : ℕ) → Keeps Q (get_active_subscription id)
  unfolding get_active_subscription
  get_active_subscription-Keeps id = search reads_rules

ruleset atomic_rules = (
  IsAtomic-transaction, IsAtomic-bind, IsAtomic-if, IsAtomic-on_option, IsAtomic-retry,
  IsAtomic-of_reads, reads_rules, require_user-Keeps, get_shop_item-Keeps,
  get_active_subscription-Keeps, check_and_add_daily_yad_credit-Keeps,
)

credit_yad-IsAtomic :
    (id : ℕ) (x : ℤ) (ty : YadTxType) (r : Option ℕ) → IsAtomic (credit_yad id x ty r)
unfolding credit_yad
credit_yad-IsAtomic id x ty r = search atomic_rules depth 12

debit_yad-IsAtomic :
    (id : ℕ) (x : ℤ) (ty : YadTxType) (r : Option ℕ) → IsAtomic (debit_yad id x ty r)
unfolding debit_yad
debit_yad-IsAtomic id x ty r = search atomic_rules depth 12

buy_shop_item-IsAtomic : (id item quantity : ℕ) → IsAtomic (buy_shop_item id item quantity)
unfolding buy_shop_item
buy_shop_item-IsAtomic id item quantity = search atomic_rules depth 20

pub recover_user-Succeeds : (name id : ℕ) → Succeeds (recover_user name id)
unfolding recover_user
recover_user-Succeeds name id = search succeeds_rules depth 12

pub refresh_account-Succeeds : (uuid expiry : ℕ) → Succeeds (refresh_account uuid expiry)
unfolding refresh_account
refresh_account-Succeeds uuid expiry = search succeeds_rules depth 12

sync_purchase-Succeeds : (id : ℕ) (u : User) (expiry : ℕ) → Succeeds (sync_purchase id u expiry)
unfolding sync_purchase
sync_purchase-Succeeds id u expiry =
    search (succeeds_rules, recover_user-Succeeds, refresh_account-Succeeds) depth 20

buy_subscription_with_yad-IsAtomic :
    (id : ℕ) (plan : SubscriptionPlan) → IsAtomic (buy_subscription_with_yad id plan)
unfolding buy_subscription_with_yad
buy_subscription_with_yad-IsAtomic id plan =
    search (atomic_rules, IsAtomic-bind_Succeeds, sync_purchase-Succeeds, succeeds_rules) depth 20

buy_device_expansion-IsAtomic : (id qty : ℕ) → IsAtomic (buy_device_expansion id qty)
unfolding buy_device_expansion
buy_device_expansion-IsAtomic id qty =
    search (atomic_rules, IsAtomic-bind_Succeeds, succeeds_rules) depth 20

-- BuySubscriptionWithYAD changes nothing in the database when it returns an error, whichever call
-- fails at whatever point and however many of its attempts meet serialization failures: no debit
-- without a subscription, nor the reverse.
pub buy_subscription_with_yad-unchanged :
    (id : ℕ) (plan : SubscriptionPlan) (w : World) (e : Error)
    → (buy_subscription_with_yad id plan w).0 ≡ err e
    → (buy_subscription_with_yad id plan w).1.db ≡ w.db
buy_subscription_with_yad-unchanged id plan = (buy_subscription_with_yad-IsAtomic id plan).at

-- BuyDeviceExpansion changes nothing in the database when it returns an error, whichever call fails
-- at whatever point and however many of its attempts meet serialization failures.
pub buy_device_expansion-unchanged :
    (id qty : ℕ) (w : World) (e : Error)
    → (buy_device_expansion id qty w).0 ≡ err e
    → (buy_device_expansion id qty w).1.db ≡ w.db
buy_device_expansion-unchanged id qty = (buy_device_expansion-IsAtomic id qty).at

-- BuyShopItem of the service changes nothing in the database when it returns an error, whichever
-- call fails at whatever point: no order without its debit, nor the reverse.
buy_shop_item-unchanged :
    (id item quantity : ℕ) (w : World) (e : Error)
    → (buy_shop_item id item quantity w).0 ≡ err e
    → (buy_shop_item id item quantity w).1.db ≡ w.db
buy_shop_item-unchanged id item quantity = (buy_shop_item-IsAtomic id item quantity).at

-- CreditYAD and DebitYAD change nothing in the database when they return an error.
credit_and_debit-unchanged :
    (id : ℕ) (x : ℤ) (ty : YadTxType) (r : Option ℕ) (w : World) (e : Error)
    → ((credit_yad id x ty r w).0 ≡ err e → (credit_yad id x ty r w).1.db ≡ w.db)
      × ((debit_yad id x ty r w).0 ≡ err e → (debit_yad id x ty r w).1.db ≡ w.db)
credit_and_debit-unchanged id x ty r w e =
    ((credit_yad-IsAtomic id x ty r).at w e, (debit_yad-IsAtomic id x ty r).at w e)
