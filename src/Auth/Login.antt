-- ===== src/Auth/Login.antt =====
-- service.go: `Login`, with pkg/password/password.go: `VerifyConstantTime`. bcrypt's comparison is a
-- parameter. The counter's name, `IP + ":" + username`, is a number of its own, as are the other
-- texts.
use testmellow.Prelude.{ℕ, Bool, false, ◌&&◌, not, Option, none, some, ◌==◌, if◌then◌else◌}
use testmellow.World.Rows.{User, Job}
use testmellow.World.Exec.{
  Error, Result, ok, err, Exec, pure, raise, attempt, ◌>>=◌, ◌>>◌, on_option, fail_if, when,
  enqueue, ignore,
}
use testmellow.Redis.Limits.{check_login_rate_limit, record_failed_login, reset_login_attempts}
use testmellow.Remnawave.{text_or_empty}
use testmellow.Repo.Accounts.{
  get_by_username, update_last_known_ip, create_account_activity, has_seen_user_agent,
}

-- `LoginInput` with the name of the counter.
pub record LoginInput : Type 0 where
  pub username : ℕ
  pub password : ℕ
  pub ip : ℕ
  pub user_agent : ℕ
  pub identifier : ℕ

abbrev text_if : ℕ → Option ℕ
text_if t = if t == 0 then none else some t

abbrev pub is_new_ip : LoginInput → User → Bool
is_new_ip input u =
    not (text_or_empty u.last_known_ip == 0)
    && not (input.ip == 0)
    && not (text_or_empty u.last_known_ip == input.ip)

-- `if seen, err := HasSeenUserAgent(…); err == nil && !seen`
abbrev unseen : Result Bool → Bool
unseen (ok seen) = not seen
unseen (err e) = false

unfoldable pub is_new_device : LoginInput → ℕ → Exec Bool
is_new_device input id =
    if input.user_agent == 0
    then pure false
    else (do seen ← attempt (has_seen_user_agent id input.user_agent); pure (unseen seen))

unfoldable pub announce_login : LoginInput → User → Bool → Exec (Unit {0})
announce_login input u new_device = on_option u.telegram_id (pure tt) λ telegram_id.
    when (not (telegram_id == 0)) do
      when (is_new_ip input u) (ignore (enqueue (Job.notify_telegram telegram_id)))
      when new_device (ignore (enqueue (Job.notify_telegram telegram_id)))

-- The best-effort part of a successful login.
unfoldable pub record_login : LoginInput → ℕ → User → Exec (Unit {0})
unfolding is_new_device announce_login
record_login input id u = do
  reset_login_attempts input.identifier
  when (not (input.ip == 0)) (ignore (update_last_known_ip id input.ip))
  ignore (
      create_account_activity
        (record { user_id = id; ip = text_if input.ip; user_agent = text_if input.user_agent }))
  new_device ← is_new_device input id
  announce_login input u new_device

abbrev pub hash_of : Option (ℕ × User) → ℕ
hash_of none = 0
hash_of (some (id, u)) = text_or_empty u.password_hash

unfoldable pub reject : LoginInput → Exec (ℕ × User)
reject input = do record_failed_login input.identifier; raise Error.bad_credentials

module _ (compare : ℕ → ℕ → Bool) where
  -- `VerifyConstantTime`: no password matches the empty hash.
  unfoldable pub verify_constant_time : ℕ → ℕ → Bool
  verify_constant_time hash plain = if hash == 0 then false else compare hash plain

  -- `Login`
  unfoldable pub login : LoginInput → Exec (ℕ × User)
  unfolding record_login reject
  login input = do
    check_login_rate_limit input.identifier
    row ← get_by_username input.username
    on_option row (reject input) λ (id, u).
        if not (verify_constant_time (hash_of row) input.password)
        then reject input
        else (do fail_if u.is_banned Error.banned; record_login input id u; pure (id, u))
