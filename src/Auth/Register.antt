-- ===== src/Auth/Register.antt =====
-- service.go: `Register`. The texts are numbers; the handler passes the lengths of the trimmed name
-- and of the password, and whether the IP address is one (`net.ParseIP`). `hash` is
-- `bcrypt.GenerateFromPassword`, which may fail; the referral code is a random number.
use testmellow.Prelude.{
  ℕ, Bool, false, ◌&&◌, ◌||◌, not, Option, none, some, ltb, leb, ◌==◌, if◌then◌else◌, is_some,
}
use testmellow.Prelude.Int.{ℤ, pos, ◌+ℤ◌}
use testmellow.Anticheat.{
  scope_registration_risk, clamp_risk_score, check_self_referral, delta_self_referral,
}
use testmellow.World.Rows.{User}
use testmellow.World.Exec.{
  Error, Result, ok, err, Exec, pure, raise, attempt, ◌>>=◌, ◌>>◌, on_option, on_result, fail_if,
  new_id, transaction, ignore, remote,
}
use testmellow.Redis.Limits.{check_rate_limit, ip_limit_key, check_daily_referral_limit}
use testmellow.Repo.Accounts.{
  get_by_username, get_by_referral_code, count_users_from_ip, count_users_from_fingerprint,
  count_admins, create_user, create_referral,
}

-- `RegisterInput`
pub record RegisterInput : Type 0 where
  pub username : ℕ
  pub username_length : ℕ
  pub password : ℕ
  pub password_length : ℕ
  pub referral_code : ℕ
  pub device_fingerprint : ℕ
  pub ip : ℕ
  pub ip_ok : Bool
  pub bootstrap_token : ℕ

-- `count, _ := …`
abbrev count_or_zero : Result ℕ → ℕ
count_or_zero (ok n) = n
count_or_zero (err e) = 0

abbrev register_action : ℕ
register_action = 2

unfoldable pub same_ip_count : RegisterInput → ℕ → Exec ℕ
same_ip_count input id =
    if input.ip_ok
    then (do n ← attempt (count_users_from_ip input.ip id); pure (count_or_zero n))
    else pure 0

-- The token of the environment makes the first administrator.
unfoldable pub is_first_admin : ℕ → RegisterInput → Exec Bool
is_first_admin admin_token input =
    if not (admin_token == 0)
      && not (input.bootstrap_token == 0)
      && (input.bootstrap_token == admin_token)
    then (do n ← attempt count_admins; pure (count_or_zero n == 0))
    else pure false

-- The user with the referrer of the code, if there is one and the limits allow it.
unfoldable pub resolve_referrer : RegisterInput → ℕ → User → Exec User
resolve_referrer input id u = if input.referral_code == 0 then pure u else do
  row ← get_by_referral_code input.referral_code
  on_option row (pure u) λ (referrer_id, referrer).
      if not (check_self_referral id referrer_id)
      then pure
          (record u { risk_score = clamp_risk_score (u.risk_score +ℤ pos delta_self_referral) })
      else (do
        allowed ← attempt (check_daily_referral_limit referrer_id)
        on_result allowed (λ _. pure u) λ _. pure (record u { referrer_id = some referrer_id }))

-- `Commit` after an insert whose error was ignored: the transaction is aborted then, and the
-- commit rolls it back.
unfoldable pub record_referral : ℕ → ℕ → Exec (Unit {0})
record_referral id referrer_id = do
  ref_id ← new_id
  ignore (
      transaction (
        create_referral ref_id (record {
          referrer_id = referrer_id;
          referee_id = id;
          total_paid_ltv = pos 0;
          total_reward = pos 0;
        })))

module _ (hash : ℕ → Option ℕ) (admin_token : ℕ) where
  unfoldable pub new_user : RegisterInput → (password_hash refcode : ℕ) → ℤ → Bool → User
  new_user input password_hash refcode risk admin = record {
    telegram_id = none;
    username = some input.username;
    password_hash = some password_hash;
    yad_balance = pos 0;
    referrer_id = none;
    referral_code = refcode;
    ltv = pos 0;
    risk_score = risk;
    is_admin = admin;
    is_banned = false;
    remna_user_uuid = none;
    device_fingerprint = some input.device_fingerprint;
    last_known_ip = if input.ip_ok && not (input.ip == 0) then some input.ip else none;
    trial_used = false;
    active_discount_code = none;
    active_discount_percent = pos 0;
    device_expansion_count = 0;
    tfa_enabled = false;
  }

  -- The part after the checks: the account is written, then its referral.
  unfoldable pub create_account : RegisterInput → ℕ → (same_ip same_fp : ℕ) → Exec (ℕ × User)
  unfolding resolve_referrer record_referral is_first_admin new_user
  create_account input id same_ip same_fp =
      on_option (hash input.password) (raise Error.bad_payload) λ password_hash. do
        refcode ← remote
        admin ← is_first_admin admin_token input
        let risk = scope_registration_risk same_ip same_fp
        u ← resolve_referrer input id (new_user input password_hash refcode risk admin)
        create_user id u
        on_option u.referrer_id (pure tt) (record_referral id)
        pure (id, u)

  -- `Register`
  unfoldable pub register : RegisterInput → Exec (ℕ × User)
  unfolding same_ip_count create_account
  register input = do
    fail_if (ltb input.username_length 3 || ltb 64 input.username_length) Error.name_length
    fail_if (ltb input.password_length 8) Error.short_password
    if input.ip_ok then check_rate_limit (ip_limit_key register_action input.ip) 3 3600 else pure tt
    existing ← get_by_username input.username
    fail_if (is_some existing) Error.name_taken
    id ← new_id
    same_ip ← same_ip_count input id
    counted ← attempt (count_users_from_fingerprint input.device_fingerprint id)
    let same_fp = count_or_zero counted
    fail_if (leb 3 same_ip) Error.too_many_accounts
    fail_if (not (input.device_fingerprint == 0) && leb 2 same_fp) Error.too_many_accounts
    create_account input id same_ip same_fp
