-- ===== src/Tests/Money.antt =====
-- Runs of the operations on money.
use testmellow.Prelude.{
  ℕ, ◌≡◌, refl, true, some, [], ◌∷◌, arith, Bool-cases, inl, inr, ◌==◌, find, update, rows_where,
}
use testmellow.Prelude.Int.{pos, ◌+ℤ◌, ◌-ℤ◌, ◌≤ℤ◌, int_laws}
use testmellow.Domain.{
  device_expansion_yad, device_expansion_unit_yad, plan_yad_price, plan_duration_days,
  SubscriptionPlan,
}
use testmellow.World.Exec.{
  Error, Outcome, err, World, pure, raise, gets, lift, attempt, atomically, ◌>>=◌, on_option,
  on_result, remote, fail_if, when, query, modify_db, execute, now, new_id, transaction, ignore,
  retry,
}
use testmellow.Repo.Users.{
  get_by_id, lock_user_for_update, adjust_yad_balance, adjusted_balance,
  increment_device_expansion_count,
}
use testmellow.Repo.Shop.{get_shop_item_by_id, insert_order, take_from_stock}
use testmellow.Repo.Subscriptions.{
  get_active_subscription, latest, lock_latest_subscription, extend_subscription_by_duration,
}
use testmellow.Repo.Expansions.{get_active_device_expansion, create_device_expansion}
use testmellow.Ledger.{IsBalanced, balance_of, ledger_sum}
use testmellow.Economy.Accounts.{require_user, buy_shop_item, redeem_promo}
use testmellow.Economy.Plans.{buy_subscription_with_yad, buy_device_expansion}
use testmellow.Economy.Atomicity.{
  buy_subscription_with_yad-unchanged, buy_device_expansion-unchanged,
}
use testmellow.Economy.Promos.{IsCounted, redeem_promo-IsCounted}
use testmellow.System.{Outside, Operation, Step, Reach, perform}
use testmellow.System.Balance.{Reach-IsBalanced}
use testmellow.Tests.Worlds.{
  shop_db, world_with, sunny, plain_gateway, plain_config, plain_tokens, plain_uuid,
}

-- The eighth call fails: the commit of the plan and of the order.
abbrev broken_commit : World
broken_commit = world_with (
    Outcome.done 0
    ∷ Outcome.done 0
    ∷ Outcome.done 0
    ∷ Outcome.done 0
    ∷ Outcome.done 0
    ∷ Outcome.done 0
    ∷ Outcome.done 0
    ∷ Outcome.io_error
    ∷ [])

plan_fails :
    (buy_subscription_with_yad 1 SubscriptionPlan.week broken_commit).0 ≡ err Error.db_error
unfolding buy_subscription_with_yad buy_device_expansion buy_shop_item require_user get_by_id
    get_shop_item_by_id get_active_subscription latest rows_where find update pure raise gets lift
    attempt atomically ◌>>=◌ on_option on_result remote fail_if when query modify_db execute now
    new_id transaction ignore retry lock_user_for_update lock_latest_subscription adjust_yad_balance
    adjusted_balance extend_subscription_by_duration insert_order take_from_stock
    get_active_device_expansion create_device_expansion increment_device_expansion_count
    plan_yad_price plan_duration_days device_expansion_yad device_expansion_unit_yad ◌+ℤ◌ ◌-ℤ◌
plan_fails = refl

expansion_fails : (buy_device_expansion 1 1 broken_commit).0 ≡ err Error.db_error
unfolding buy_subscription_with_yad buy_device_expansion buy_shop_item require_user get_by_id
    get_shop_item_by_id get_active_subscription latest rows_where find update pure raise gets lift
    attempt atomically ◌>>=◌ on_option on_result remote fail_if when query modify_db execute now
    new_id transaction ignore retry lock_user_for_update lock_latest_subscription adjust_yad_balance
    adjusted_balance extend_subscription_by_duration insert_order take_from_stock
    get_active_device_expansion create_device_expansion increment_device_expansion_count
    plan_yad_price plan_duration_days device_expansion_yad device_expansion_unit_yad ◌+ℤ◌ ◌-ℤ◌
expansion_fails = refl

buy_subscription_with_yad-unchanged_example :
    (buy_subscription_with_yad 1 SubscriptionPlan.week broken_commit).1.db ≡ shop_db
buy_subscription_with_yad-unchanged_example =
    buy_subscription_with_yad-unchanged 1 SubscriptionPlan.week broken_commit Error.db_error
      plan_fails

buy_device_expansion-unchanged_example : (buy_device_expansion 1 1 broken_commit).1.db ≡ shop_db
buy_device_expansion-unchanged_example =
    buy_device_expansion-unchanged 1 1 broken_commit Error.db_error expansion_fails

shop_db-IsBalanced : IsBalanced shop_db
unfolding ledger_sum find ◌+ℤ◌
shop_db-IsBalanced = record { backed = λ id. ground arith; solvent = λ id. solvent id }
  where
    solvent : (id : ℕ) → pos 0 ≤ℤ balance_of id shop_db
    solvent id = elim (Bool-cases (1 == id)) [
      | inl p ↦ rw p (omega int_laws)
      | inr n ↦ rw n (omega int_laws)
    ]

abbrev plain_outside : Outside
plain_outside = record {
  gateway = plain_gateway;
  gateway_config = plain_config;
  bcrypt_generate = λ p. some p;
  bcrypt_compare = λ h p. true;
  admin_bootstrap_token = 0;
  tokens = plain_tokens;
  uuid = plain_uuid;
  hwids = λ uuid n. n ∷ [];
}

abbrev purchase : Operation
purchase = Operation.plan_for_yad 1 SubscriptionPlan.week

Reach-IsBalanced_example : IsBalanced (perform plain_outside purchase sunny).1.db
Reach-IsBalanced_example =
    Reach-IsBalanced plain_outside sunny (perform plain_outside purchase sunny).1
      (Reach.there Reach.here (Step.operation purchase sunny)) shop_db-IsBalanced

shop_db-IsCounted : IsCounted shop_db
unfolding find
shop_db-IsCounted = record {
  counted = λ id. ground arith;
  limited = λ id. ground arith;
  distinct = tt;
}

redeem_promo-IsCounted_example : IsCounted (redeem_promo 1 77 sunny).1.db
redeem_promo-IsCounted_example = redeem_promo-IsCounted 1 77 sunny shop_db-IsCounted
