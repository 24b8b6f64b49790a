-- ===== src/Ledger/Tables.antt =====
-- The statements on the other tables keep the ledger balanced.
use testmellow.Prelude.{ℕ, ◌≡◌, arith}
use testmellow.Prelude.Int.{ℤ}
use testmellow.Domain.{PaymentStatus, SubscriptionPlan, RewardSplitStatus}
use testmellow.World.Rows.{Db, Subscription, Payment, ReferralReward, ShopOrder, DeviceExpansion}
use testmellow.World.Keeps.{Keeps, keeps_rules}
use testmellow.Repo.Subscriptions.{
  lock_latest_subscription, get_active_subscription, create_subscription,
  extend_subscription_by_duration, contract_subscription_by_duration, update_expired_subscriptions,
  update_subscription_remna,
}
use testmellow.Repo.Payments.{
  get_payment_by_id, get_user_payment_by_id, get_pending_payment_by_plan, create_payment,
  update_payment_status, touch_payment, mark_expired_payments, ensure_webhook_event,
  mark_webhook_processed,
}
use testmellow.Repo.Rewards.{
  get_referral_by_referee, update_referral_totals, create_referral_reward, update_reward_status,
  get_reward_by_payment_id, get_reward_by_id, revert_referral_reward, get_pending_rewards_due,
  insert_reward,
}
use testmellow.Repo.Promos.{get_promo_by_code, has_user_used_promo, use_promo_code}
use testmellow.Repo.Shop.{get_shop_item_by_id, insert_order}
use testmellow.Repo.Expansions.{
  get_active_device_expansion, create_device_expansion, delete_device_expansion_for_user,
  delete_expired_device_expansions, upsert_expansion,
}
use testmellow.Ledger.{IsBalanced}

-- The tables beside users and the ledger are free.
pub same-IsBalanced :
    (d e : Db)
    → e.users ≡ d.users
    → e.yad_transactions ≡ d.yad_transactions
    → IsBalanced d
    → IsBalanced e
same-IsBalanced d e p q b = record {
  backed = λ j. rw (p, q) (b.backed j);
  solvent = λ j. rw p (b.solvent j);
}

pub lock_latest_subscription-IsBalanced : (id : ℕ) → Keeps IsBalanced (lock_latest_subscription id)
unfolding lock_latest_subscription
lock_latest_subscription-IsBalanced id = search keeps_rules

pub get_active_subscription-IsBalanced : (id : ℕ) → Keeps IsBalanced (get_active_subscription id)
unfolding get_active_subscription
get_active_subscription-IsBalanced id = search keeps_rules

pub create_subscription-IsBalanced :
    (id : ℕ) (s : Subscription) → Keeps IsBalanced (create_subscription id s)
unfolding create_subscription
create_subscription-IsBalanced id s = search (keeps_rules, same-IsBalanced) depth 12

pub extend_subscription_by_duration-IsBalanced :
    (id days : ℕ) (p : SubscriptionPlan)
    → Keeps IsBalanced (extend_subscription_by_duration id days p)
unfolding extend_subscription_by_duration
extend_subscription_by_duration-IsBalanced id days p =
    search (keeps_rules, same-IsBalanced) depth 12

pub contract_subscription_by_duration-IsBalanced :
    (id days : ℕ) → Keeps IsBalanced (contract_subscription_by_duration id days)
unfolding contract_subscription_by_duration
contract_subscription_by_duration-IsBalanced id days =
    search (keeps_rules, same-IsBalanced) depth 12

pub update_expired_subscriptions-IsBalanced : Keeps IsBalanced update_expired_subscriptions
unfolding update_expired_subscriptions
update_expired_subscriptions-IsBalanced = search (keeps_rules, same-IsBalanced) depth 12

pub update_subscription_remna-IsBalanced :
    (id x : ℕ) → Keeps IsBalanced (update_subscription_remna id x)
unfolding update_subscription_remna
update_subscription_remna-IsBalanced id x = search (keeps_rules, same-IsBalanced) depth 12

pub get_payment_by_id-IsBalanced : (id : ℕ) → Keeps IsBalanced (get_payment_by_id id)
unfolding get_payment_by_id
get_payment_by_id-IsBalanced id = search keeps_rules

pub get_user_payment_by_id-IsBalanced : (id x : ℕ) → Keeps IsBalanced (get_user_payment_by_id id x)
unfolding get_user_payment_by_id
get_user_payment_by_id-IsBalanced id x = search keeps_rules

pub get_pending_payment_by_plan-IsBalanced :
    (id : ℕ) (p : SubscriptionPlan) → Keeps IsBalanced (get_pending_payment_by_plan id p)
unfolding get_pending_payment_by_plan
get_pending_payment_by_plan-IsBalanced id p = search keeps_rules

pub create_payment-IsBalanced : (id : ℕ) (p : Payment) → Keeps IsBalanced (create_payment id p)
unfolding create_payment
create_payment-IsBalanced id p = search (keeps_rules, same-IsBalanced) depth 12

pub update_payment_status-IsBalanced :
    (id : ℕ) (s : PaymentStatus) → Keeps IsBalanced (update_payment_status id s)
unfolding update_payment_status
update_payment_status-IsBalanced id s = search (keeps_rules, same-IsBalanced) depth 12

pub touch_payment-IsBalanced : (id x : ℕ) → Keeps IsBalanced (touch_payment id x)
unfolding touch_payment
touch_payment-IsBalanced id x = search (keeps_rules, same-IsBalanced) depth 12

pub mark_expired_payments-IsBalanced : Keeps IsBalanced mark_expired_payments
unfolding mark_expired_payments
mark_expired_payments-IsBalanced = search (keeps_rules, same-IsBalanced) depth 12

pub ensure_webhook_event-IsBalanced :
    (id : ℕ) (s : PaymentStatus) → Keeps IsBalanced (ensure_webhook_event id s)
unfolding ensure_webhook_event
ensure_webhook_event-IsBalanced id s = search (keeps_rules, same-IsBalanced) depth 12

pub mark_webhook_processed-IsBalanced :
    (id : ℕ) (s : PaymentStatus) → Keeps IsBalanced (mark_webhook_processed id s)
unfolding mark_webhook_processed
mark_webhook_processed-IsBalanced id s = search (keeps_rules, same-IsBalanced) depth 12

pub get_referral_by_referee-IsBalanced : (id : ℕ) → Keeps IsBalanced (get_referral_by_referee id)
unfolding get_referral_by_referee
get_referral_by_referee-IsBalanced id = search keeps_rules

pub update_referral_totals-IsBalanced :
    (id : ℕ) (x y : ℤ) → Keeps IsBalanced (update_referral_totals id x y)
unfolding update_referral_totals
update_referral_totals-IsBalanced id x y = search (keeps_rules, same-IsBalanced) depth 12

pub update_reward_status-IsBalanced :
    (id : ℕ) (s : RewardSplitStatus) → Keeps IsBalanced (update_reward_status id s)
unfolding update_reward_status
update_reward_status-IsBalanced id s = search (keeps_rules, same-IsBalanced) depth 12

pub get_reward_by_payment_id-IsBalanced : (id : ℕ) → Keeps IsBalanced (get_reward_by_payment_id id)
unfolding get_reward_by_payment_id
get_reward_by_payment_id-IsBalanced id = search keeps_rules

pub get_reward_by_id-IsBalanced : (id : ℕ) → Keeps IsBalanced (get_reward_by_id id)
unfolding get_reward_by_id
get_reward_by_id-IsBalanced id = search keeps_rules

pub revert_referral_reward-IsBalanced : (id : ℕ) → Keeps IsBalanced (revert_referral_reward id)
unfolding revert_referral_reward
revert_referral_reward-IsBalanced id = search (keeps_rules, same-IsBalanced) depth 12

pub get_pending_rewards_due-IsBalanced : Keeps IsBalanced get_pending_rewards_due
unfolding get_pending_rewards_due
get_pending_rewards_due-IsBalanced = search keeps_rules

pub get_promo_by_code-IsBalanced : (id : ℕ) → Keeps IsBalanced (get_promo_by_code id)
unfolding get_promo_by_code
get_promo_by_code-IsBalanced id = search keeps_rules

pub has_user_used_promo-IsBalanced : (id x : ℕ) → Keeps IsBalanced (has_user_used_promo id x)
unfolding has_user_used_promo
has_user_used_promo-IsBalanced id x = search keeps_rules

pub use_promo_code-IsBalanced : (id x : ℕ) → Keeps IsBalanced (use_promo_code id x)
unfolding use_promo_code
use_promo_code-IsBalanced id x = search (keeps_rules, same-IsBalanced) depth 12

pub get_shop_item_by_id-IsBalanced : (id : ℕ) → Keeps IsBalanced (get_shop_item_by_id id)
unfolding get_shop_item_by_id
get_shop_item_by_id-IsBalanced id = search keeps_rules

pub insert_order-IsBalanced : (id : ℕ) (o : ShopOrder) → Keeps IsBalanced (insert_order id o)
unfolding insert_order
insert_order-IsBalanced id o = search (keeps_rules, same-IsBalanced) depth 12

pub get_active_device_expansion-IsBalanced :
    (id : ℕ) → Keeps IsBalanced (get_active_device_expansion id)
unfolding get_active_device_expansion
get_active_device_expansion-IsBalanced id = search keeps_rules

pub delete_device_expansion_for_user-IsBalanced :
    (id : ℕ) → Keeps IsBalanced (delete_device_expansion_for_user id)
unfolding delete_device_expansion_for_user
delete_device_expansion_for_user-IsBalanced id = search (keeps_rules, same-IsBalanced) depth 12

pub delete_expired_device_expansions-IsBalanced : Keeps IsBalanced delete_expired_device_expansions
unfolding delete_expired_device_expansions
delete_expired_device_expansions-IsBalanced = search (keeps_rules, same-IsBalanced) depth 12

insert_reward-IsBalanced :
    (id : ℕ) (r : ReferralReward) (d : Db) → IsBalanced d → IsBalanced (insert_reward id r d)
insert_reward-IsBalanced id r d b = same-IsBalanced d _ (ground arith) (ground arith) b

pub create_referral_reward-IsBalanced :
    (id : ℕ) (r : ReferralReward) → Keeps IsBalanced (create_referral_reward id r)
unfolding create_referral_reward
create_referral_reward-IsBalanced id r = search (keeps_rules, insert_reward-IsBalanced)

upsert_expansion-IsBalanced :
    (id : ℕ) (e : DeviceExpansion) (d : Db) → IsBalanced d → IsBalanced (upsert_expansion id e d)
upsert_expansion-IsBalanced id e d b = same-IsBalanced d _ (ground arith) (ground arith) b

pub create_device_expansion-IsBalanced :
    (id : ℕ) (e : DeviceExpansion) → Keeps IsBalanced (create_device_expansion id e)
unfolding create_device_expansion
create_device_expansion-IsBalanced id e = search (keeps_rules, upsert_expansion-IsBalanced)

pub ruleset table_rules = (
  lock_latest_subscription-IsBalanced, get_active_subscription-IsBalanced,
  create_subscription-IsBalanced, extend_subscription_by_duration-IsBalanced,
  contract_subscription_by_duration-IsBalanced, update_expired_subscriptions-IsBalanced,
  update_subscription_remna-IsBalanced, get_payment_by_id-IsBalanced,
  get_user_payment_by_id-IsBalanced, get_pending_payment_by_plan-IsBalanced,
  create_payment-IsBalanced, update_payment_status-IsBalanced, touch_payment-IsBalanced,
  mark_expired_payments-IsBalanced, ensure_webhook_event-IsBalanced,
  mark_webhook_processed-IsBalanced, get_referral_by_referee-IsBalanced,
  update_referral_totals-IsBalanced, update_reward_status-IsBalanced,
  get_reward_by_payment_id-IsBalanced, get_reward_by_id-IsBalanced,
  revert_referral_reward-IsBalanced, get_pending_rewards_due-IsBalanced,
  get_promo_by_code-IsBalanced, has_user_used_promo-IsBalanced, use_promo_code-IsBalanced,
  get_shop_item_by_id-IsBalanced, insert_order-IsBalanced, get_active_device_expansion-IsBalanced,
  delete_device_expansion_for_user-IsBalanced, delete_expired_device_expansions-IsBalanced,
  create_referral_reward-IsBalanced, create_device_expansion-IsBalanced,
)
