-- ===== src/Repo/Profiles.antt =====
-- user_repo.go: the statements of the profile, of the bot and of the administration on one user.
use testmellow.Prelude.{
  ℕ, Bool, Option, none, some, ◌∷◌, ◌==◌, ◌&&◌, not, exists, find, rows_where, is_some,
}
use testmellow.Prelude.Int.{ℤ}
use testmellow.World.Rows.{User, Activity}
use testmellow.World.Exec.{Error, Exec, ◌>>=◌, ◌>>◌, fail_if, query, modify_db, execute}
use testmellow.Repo.Users.{map_user}
use testmellow.Repo.Accounts.{equals}
use testmellow.Repo.Rewards.{first}

-- `GetByTelegramID`
unfoldable pub get_by_telegram_id : ℕ → Exec (Option (ℕ × User))
get_by_telegram_id tg_id = query (λ d. first (rows_where (λ u. equals u.telegram_id tg_id) d.users))

-- Another user has the Telegram account: the unique column `telegram_id`.
abbrev pub has_telegram : ℕ → ℕ → ℕ × User → Bool
has_telegram user_id tg_id (k, u) = not (k == user_id) && equals u.telegram_id tg_id

-- `SetTelegramID` with an account: no row is no error, the account of another user is one.
unfoldable pub set_telegram_id : ℕ → ℕ → Exec (Unit {0})
set_telegram_id user_id tg_id = do
  taken ← query (λ d. is_some (find user_id d.users) && exists (has_telegram user_id tg_id) d.users)
  fail_if taken Error.unique_violation
  modify_db (map_user user_id (λ u. record u { telegram_id = some tg_id }))

-- `SetTelegramID` with nil.
unfoldable pub clear_telegram_id : ℕ → Exec (Unit {0})
clear_telegram_id user_id = execute (map_user user_id (λ u. record u { telegram_id = none }))

unfoldable pub set_password : ℕ → ℕ → Exec (Unit {0})
set_password user_id hash = execute (map_user user_id (λ u. record u { password_hash = some hash }))

unfoldable pub set_tfa_enabled : ℕ → Bool → Exec (Unit {0})
set_tfa_enabled user_id enabled =
    execute (map_user user_id (λ u. record u { tfa_enabled = enabled }))

-- `UpdateBanStatus`
unfoldable pub update_ban_status : ℕ → Bool → Exec (Unit {0})
update_ban_status user_id banned = execute (map_user user_id (λ u. record u { is_banned = banned }))

unfoldable pub update_risk_score : ℕ → ℤ → Exec (Unit {0})
update_risk_score user_id score = execute (map_user user_id (λ u. record u { risk_score = score }))

-- `CreateAccountActivity` for the events beside a login.
unfoldable pub create_activity : Activity → Exec (Unit {0})
create_activity a = execute (λ d. record d { activities = a ∷ d.activities })
