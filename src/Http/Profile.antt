-- ===== src/Http/Profile.antt =====
-- internal/handler/http/handlers.go, ProfileHandler: the operations that change the account. The
-- user is that of the access token.
use testmellow.Prelude.{ℕ, Bool, false, ◌&&◌, ◌||◌, not, Option, none, some, ◌==◌, is_some}
use testmellow.World.Rows.{User, Activity, ActivityEvent, Job}
use testmellow.World.Exec.{
  Error, Exec, pure, raise, attempt, ◌>>=◌, ◌>>◌, on_option, on_result, fail_if, remote, ignore,
  now, enqueue,
}
use testmellow.Redis.Limits.{check_rate_limit}
use testmellow.Redis.Sessions.{set_password_version, revoke_all}
use testmellow.Redis.Codes.{
  link_key, unlink_key, unlink_code_limit_key, link_code_limit_key, set_code, take_code,
}
use testmellow.Repo.Users.{get_by_id}
use testmellow.Repo.Profiles.{set_password, clear_telegram_id, set_tfa_enabled, create_activity}

-- `err != nil || user == nil`
unfoldable pub profile : ℕ → Exec User
profile user_id = do
  row ← attempt (get_by_id user_id)
  on_result row (λ _. raise Error.user_not_found) λ u. on_option u (raise Error.user_not_found) pure

abbrev logged : ℕ → ActivityEvent → Activity
logged user_id event_type = record { user_id = user_id; event_type = event_type }

abbrev pub verifies : (ℕ → ℕ → Bool) → Option ℕ → ℕ → Bool
verifies compare none password = false
verifies compare (some hash) password = compare hash password

module _ (compare : ℕ → ℕ → Bool) (hash : ℕ → Option ℕ) where
  -- `ChangePassword`; `long_enough` is the binding `min=8`.
  unfoldable pub change_password :
      (user_id old_password new_password : ℕ) (long_enough : Bool) → Exec (Unit {0})
  unfolding profile
  change_password user_id old_password new_password long_enough = do
    fail_if (not long_enough || (old_password == 0)) Error.invalid_request
    u ← profile user_id
    fail_if (not (verifies compare u.password_hash old_password)) Error.bad_credentials
    on_option (hash new_password) (raise Error.server_error) λ h. do
      set_password user_id h
      t ← now
      ignore (set_password_version user_id t)
      ignore (revoke_all user_id)
      ignore (create_activity (logged user_id ActivityEvent.password_change))

-- `UpdateTelegram`: the code 0 is "", and `asks_id` says that the request has a `telegram_id`.
unfoldable pub update_telegram : (user_id code : ℕ) (asks_id : Bool) → Exec (Unit {0})
unfolding profile
update_telegram user_id code asks_id = do
  fail_if (asks_id || (code == 0)) Error.invalid_request
  u ← profile user_id
  fail_if (not (is_some u.telegram_id)) Error.no_telegram
  owner ← take_code (unlink_key code)
  fail_if (not (owner == user_id)) Error.code_unknown
  clear_telegram_id user_id
  ignore (set_tfa_enabled user_id false)
  ignore (create_activity (logged user_id ActivityEvent.telegram_unlink))

-- `GenerateUnlinkCode`: the code goes to Telegram, not into the answer.
unfoldable pub generate_unlink_code : ℕ → Exec (Unit {0})
unfolding profile
generate_unlink_code user_id = do
  u ← profile user_id
  on_option u.telegram_id (raise Error.no_telegram) λ telegram_id. do
    check_rate_limit (unlink_code_limit_key user_id) 3 600
    code ← remote
    set_code (unlink_key code) user_id 600
    ignore (enqueue (Job.notify_telegram telegram_id))

-- `req.Enabled && (user.TelegramID == nil || *user.TelegramID == 0)`
abbrev pub has_telegram_account : User → Bool
has_telegram_account u = elim u.telegram_id [ none ↦ false | some id ↦ not (id == 0) ]

-- `ToggleTFA`
unfoldable pub toggle_tfa : ℕ → Bool → Exec (Unit {0})
unfolding profile
toggle_tfa user_id enabled = do
  u ← profile user_id
  fail_if (enabled && not (has_telegram_account u)) Error.no_telegram
  set_tfa_enabled user_id enabled

-- `GenerateLinkCode`
unfoldable pub generate_link_code : ℕ → Exec ℕ
generate_link_code user_id = do
  check_rate_limit (link_code_limit_key user_id) 3 300
  code ← remote
  set_code (link_key code) user_id 300
  pure code
