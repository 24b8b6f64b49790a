-- ===== src/Tests/Accounts.antt =====
-- Runs on users, subscriptions, the shop, the login and the tables of constants.
use testmellow.Prelude.{
  ℕ, ◌+◌, ◌*◌, ◌≡◌, ◌≢◌, refl, Bool, true, false, none, some, [], ◌∷◌, arith, find, update,
  rows_where, ◌==◌, if◌then◌else◌, exists,
}
use testmellow.Prelude.Int.{pos}
use testmellow.Domain.{SubscriptionPlan, SubscriptionStatus}
use testmellow.World.Rows.{Subscription, ShopOrder, Job, User}
use testmellow.World.Exec.{
  Error, ok, err, World, pure, raise, gets, attempt, atomically, ◌>>=◌, on_option, on_result,
  remote, fail_if, when, query, modify_db, execute, now, new_id, transaction, ignore, remna,
}
use testmellow.Redis.Store.{get}
use testmellow.Redis.Limits.{script, check_login_rate_limit, reset_login_attempts}
use testmellow.Remnawave.{refresh_account, text_or_empty}
use testmellow.Repo.Users.{get_by_id, set_trial_used_tx}
use testmellow.Repo.Subscriptions.{
  day, create_subscription, extend_subscription_by_duration, contract_subscription_by_duration,
}
use testmellow.Repo.Subscriptions.Days.{expiry_of, contract-extend}
use testmellow.Repo.Shop.{insert_order}
use testmellow.Repo.Shop.Oversell.{insert_order-oversells}
use testmellow.Repo.Accounts.{get_by_username, is_login_from}
use testmellow.Economy.Accounts.{require_user}
use testmellow.Trial.{activate_trial}
use testmellow.Trial.Once.{
  had_trial, activate_trial-unchanged, activate_trial-refuses, activate_trial-marks,
}
use testmellow.Auth.Login.{LoginInput, verify_constant_time, login, record_login}
use testmellow.Auth.Device.{login_sound, record_login-notices, answering, unwritten, told_ip}
use testmellow.Tests.Worlds.{alice, mug, week_sub, shop_db, sunny, stormy}

trial_fails : (activate_trial 1 stormy).0 ≡ err Error.user_not_found
unfolding activate_trial require_user get_by_id ◌>>=◌ query attempt on_result remote raise
trial_fails = refl

activate_trial-unchanged_example : (activate_trial 1 stormy).1.db ≡ shop_db
activate_trial-unchanged_example =
    activate_trial-unchanged 1 stormy Error.user_not_found trial_fails

-- A world in which user 1 has had the trial.
abbrev after_trial : World
after_trial = record sunny {
  db = record shop_db { users = (1, record alice { trial_used = true }) ∷ [] };
}

activate_trial-refuses_example :
    (e : Error) × ((activate_trial 1 after_trial).0 ≡ err e)
    × ((activate_trial 1 after_trial).1.db ≡ after_trial.db)
unfolding find
activate_trial-refuses_example = activate_trial-refuses 1 after_trial refl

abbrev three_days : Subscription
three_days = record {
  user_id = 1;
  plan = SubscriptionPlan.week;
  status = SubscriptionStatus.trial;
  starts_at = 1000;
  expires_at = 260200;
  remna_sub_uuid = some 14;
  paid_kopecks = 0;
  payment_id = none;
}

trial_granted : (activate_trial 1 sunny).0 ≡ ok three_days
unfolding activate_trial require_user get_by_id ◌>>=◌ query attempt on_result on_option remote raise
    pure fail_if now gets new_id transaction atomically create_subscription set_trial_used_tx
    execute modify_db find ignore remna refresh_account
trial_granted = refl

activate_trial-marks_example : had_trial (find 1 (activate_trial 1 sunny).1.db.users) ≡ true
activate_trial-marks_example = activate_trial-marks 1 sunny three_days trial_granted

week_added : (extend_subscription_by_duration 5 7 SubscriptionPlan.week sunny).0 ≡ ok 1304800
unfolding extend_subscription_by_duration ◌>>=◌ query modify_db on_option now gets remote find pure
week_added = refl

week_taken :
    (contract_subscription_by_duration 5 7
      (extend_subscription_by_duration 5 7 SubscriptionPlan.week sunny).1).0
    ≡ ok (700000, false)
unfolding contract_subscription_by_duration extend_subscription_by_duration ◌>>=◌ query modify_db
    on_option now gets remote find update fail_if pure
week_taken = refl

abbrev week_result : ℕ × Bool
week_result = (700000, false)

contract-extend_example :
    (1304800 ≡ 700000 + 7 * day)
    × (week_result ≡ week_result)
    × (expiry_of (
          find 5
            (contract_subscription_by_duration 5 7
              (extend_subscription_by_duration 5 7 SubscriptionPlan.week
                sunny).1).1.db.subscriptions)
        ≡ some 700000)
unfolding find
contract-extend_example =
    contract-extend 5 7 SubscriptionPlan.week sunny week_sub 1304800 (700000, false) refl
      (omega arith) week_added week_taken

-- Two mugs, where one is left.
abbrev two_mugs : ShopOrder
two_mugs = record { user_id = 1; item_id = 4; quantity = 2; total_yad = pos 80 }

order_stored : (insert_order 8 two_mugs sunny).0 ≡ ok tt
unfolding insert_order ◌>>=◌ execute modify_db fail_if remote pure
order_stored = refl

insert_order-oversells_example :
    ((insert_order 8 two_mugs sunny).1.db.shop_orders ≡ (8, two_mugs) ∷ [])
    × (find 4 (insert_order 8 two_mugs sunny).1.db.shop_items ≡ some mug)
unfolding find
insert_order-oversells_example =
    insert_order-oversells 8 two_mugs sunny mug refl refl refl order_stored

abbrev alice_input : LoginInput
alice_input = record { username = 11; password = 12; ip = 21; user_agent = 31; identifier = 41 }

abbrev same_text : ℕ → ℕ → Bool
same_text h p = h == p

alice_logs_in : (login same_text alice_input sunny).0 ≡ ok (1, alice)
unfolding login ◌>>=◌ check_login_rate_limit attempt on_result script fail_if get get_by_username
    query on_option rows_where verify_constant_time reset_login_attempts ignore when
alice_logs_in = refl

login_sound_example :
    (alice.is_banned ≡ false)
    × (text_or_empty alice.password_hash ≢ 0)
    × (same_text (text_or_empty alice.password_hash) 12 ≡ true)
login_sound_example = login_sound same_text alice_input sunny 1 alice alice_logs_in

-- A user with a Telegram account; no login has been recorded.
abbrev reachable : User
reachable = record alice { telegram_id = some 55 }

abbrev new_phone : LoginInput
new_phone = record alice_input { ip = 4; user_agent = 31 }

record_login-notices_example :
    ((record_login new_phone 1 reachable (answering sunny)).1.queue
      ≡ told_ip new_phone reachable 55 sunny.queue)
    × ((record_login new_phone 1 reachable (unwritten sunny)).1.queue ≡ (
        if exists (is_login_from 1 31) shop_db.logins
        then told_ip new_phone reachable 55 sunny.queue
        else Job.notify_telegram 55 ∷ told_ip new_phone reachable 55 sunny.queue))
record_login-notices_example =
    record_login-notices new_phone 1 reachable sunny 55 refl (omega arith) (omega arith)
      (omega arith)
