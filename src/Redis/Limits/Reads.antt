-- ===== src/Redis/Limits/Reads.antt =====
-- The counters stand in Redis: they leave the database alone.
use testmellow.Prelude.{ℕ}
use testmellow.World.Rows.{Db}
use testmellow.World.Exec.{remote}
use testmellow.World.Keeps.{Keeps, reads_rules, Keeps-bind, Keeps-remote}
use testmellow.Redis.Store.{Key, Cache}
use testmellow.Redis.Limits.{
  script, run_script, increment, check_rate_limit, check_and_add_daily_yad_credit,
  check_daily_referral_limit, check_login_rate_limit, record_failed_login, reset_login_attempts,
}

module _ {Q : Db → Type 0} where
  pub script-Keeps : {A : Type 0} (f : ℕ → Cache → A × Cache) → Keeps Q (script f)
  unfolding script
  script-Keeps f =
      Keeps-bind remote (λ _. run_script f) Keeps-remote (λ _. record { at = λ w h. h })

  pub increment-Keeps : (key : Key) (ttl : ℕ) → Keeps Q (increment key ttl)
  unfolding increment
  increment-Keeps key ttl = script-Keeps _

  pub check_rate_limit-Keeps :
      (key : Key) (limit window : ℕ) → Keeps Q (check_rate_limit key limit window)
  unfolding check_rate_limit
  check_rate_limit-Keeps key limit window = search (reads_rules, increment-Keeps)

  pub check_and_add_daily_yad_credit-Keeps :
      (id amount : ℕ) → Keeps Q (check_and_add_daily_yad_credit id amount)
  unfolding check_and_add_daily_yad_credit
  check_and_add_daily_yad_credit-Keeps id amount = search (reads_rules, script-Keeps)

  pub check_daily_referral_limit-Keeps : (id : ℕ) → Keeps Q (check_daily_referral_limit id)
  unfolding check_daily_referral_limit
  check_daily_referral_limit-Keeps id = search (reads_rules, script-Keeps, increment-Keeps) depth 12

  pub check_login_rate_limit-Keeps : (id : ℕ) → Keeps Q (check_login_rate_limit id)
  unfolding check_login_rate_limit
  check_login_rate_limit-Keeps id = search (reads_rules, script-Keeps)

  pub record_failed_login-Keeps : (id : ℕ) → Keeps Q (record_failed_login id)
  unfolding record_failed_login
  record_failed_login-Keeps id = search (reads_rules, increment-Keeps)

  pub reset_login_attempts-Keeps : (id : ℕ) → Keeps Q (reset_login_attempts id)
  unfolding reset_login_attempts
  reset_login_attempts-Keeps id = search (reads_rules, script-Keeps)
