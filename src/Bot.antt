-- ===== src/Bot.antt =====
-- internal/bot/bot.go: the commands of the Telegram bot that change an account. The sender of a
-- message is the number that Telegram vouches for. The texts of the answers are not modelled: an
-- answer that refuses is an error.
pub mod Balance
pub mod Owner
pub mod Reset
use testmellow.Prelude.{
  ℕ, Bool, true, false, ◌&&◌, not, Option, none, some, List, [], ◌==◌, if◌then◌else◌,
}
use testmellow.World.Rows.{User, Activity, ActivityEvent}
use testmellow.World.Exec.{
  Error, Exec, pure, raise, ◌>>=◌, ◌>>◌, on_option, fail_if, remote, ignore, now,
}
use testmellow.Redis.Limits.{check_rate_limit}
use testmellow.Redis.Sessions.{set_password_version, revoke_all}
use testmellow.Redis.Codes.{
  link_key, unlink_key, reset_limit_key, unlink_limit_key, set_code, take_code,
}
use testmellow.Redis.Challenge.{text_eq, tfa_pending, tfa_approved, tfa_denied}
use testmellow.Redis.Challenge.Commands.{get_2fa_challenge, resolve_2fa_challenge}
use testmellow.Repo.Users.{get_by_id}
use testmellow.Repo.Accounts.{equals}
use testmellow.Repo.Profiles.{get_by_telegram_id, set_telegram_id, set_password, create_activity}
use testmellow.Repo.Merge.{merge_users}
use testmellow.Http.Auth.{UuidFormat}

abbrev pub logged : ℕ → ActivityEvent → Activity
logged user_id event_type = record { user_id = user_id; event_type = event_type }

-- The account that the bot made for the sender goes into the account of the site.
abbrev absorbed : ℕ → Option (ℕ × User) → Exec (Unit {0})
absorbed user_id none = pure tt
absorbed user_id (some (id, u)) = merge_users id user_id

abbrev is_linked : ℕ → Option (ℕ × User) → Bool
is_linked user_id none = false
is_linked user_id (some (id, u)) = id == user_id

-- `handleLink`, with the code of the message.
unfoldable pub handle_link : (tg_id code : ℕ) → Exec (Unit {0})
handle_link tg_id code = do
  user_id ← take_code (link_key code)
  existing ← get_by_telegram_id tg_id
  if is_linked user_id existing then pure tt else do
    absorbed user_id existing
    set_telegram_id user_id tg_id
    ignore (create_activity (logged user_id ActivityEvent.telegram_link))

-- `handleUnlink`: the code that the site will ask for.
unfoldable pub handle_unlink : (tg_id : ℕ) → Exec ℕ
handle_unlink tg_id = do
  check_rate_limit (unlink_limit_key tg_id) 3 600
  row ← get_by_telegram_id tg_id
  on_option row (raise Error.no_telegram) λ (id, u). do
    fail_if u.is_banned Error.banned
    code ← remote
    set_code (unlink_key code) id 600
    pure code

module _ (hash : ℕ → Option ℕ) where
  -- `handleResetPassword` after its guards; the new password is random.
  unfoldable pub reset_password : ℕ → Exec ℕ
  reset_password id = do
    password ← remote
    on_option (hash password) (raise Error.server_error) λ h. do
      set_password id h
      t ← now
      ignore (set_password_version id t)
      ignore (revoke_all id)
      ignore (create_activity (logged id ActivityEvent.password_reset))
      remote
      pure password

  -- `handleResetPassword`
  unfoldable pub handle_reset_password : (tg_id : ℕ) → Exec ℕ
  unfolding reset_password
  handle_reset_password tg_id = do
    check_rate_limit (reset_limit_key tg_id) 3 3600
    row ← get_by_telegram_id tg_id
    on_option row (raise Error.no_telegram) λ (id, u). do
      fail_if u.is_banned Error.banned
      fail_if u.tfa_enabled Error.tfa_blocks_reset
      reset_password id

module _ (uuid : UuidFormat) where
  abbrev owns : ℕ → Option User → Bool
  owns tg_id none = false
  owns tg_id (some u) = equals u.telegram_id tg_id

  -- `if err != nil || userID == ""`
  abbrev some_user : Option (List ℕ × List ℕ) → Option (List ℕ × List ℕ)
  some_user none = none
  some_user (some (user_id, status)) = if text_eq user_id [] then none else some (user_id, status)

  -- `handleTFACallback` up to the answer: the checks.
  unfoldable pub check_callback : (tg_id challenge_id : ℕ) → Exec (Unit {0})
  check_callback tg_id challenge_id = do
    found ← get_2fa_challenge challenge_id
    on_option (some_user found) (raise Error.challenge_expired) λ (user_id, status). do
      fail_if (not (text_eq status tfa_pending)) Error.challenge_expired
      on_option (uuid.parse user_id) (raise Error.invalid_request)
          λ uid. do row ← get_by_id uid; fail_if (not (owns tg_id row)) Error.forbidden

  -- `handleTFACallback`
  unfoldable pub handle_tfa_callback : (tg_id challenge_id : ℕ) → Bool → Exec (Unit {0})
  unfolding check_callback
  handle_tfa_callback tg_id challenge_id approve = do
    check_callback tg_id challenge_id
    resolve_2fa_challenge challenge_id (if approve then tfa_approved else tfa_denied)
