-- ===== src/Repo/Accounts.antt =====
-- user_repo.go: what registration and login read and write.
use testmellow.Prelude.{
  ℕ, Bool, false, ◌&&◌, ◌||◌, Option, none, some, [], ◌∷◌, ◌==◌, if◌then◌else◌, is_some, Table,
  find, rows_where, exists, length,
}
use testmellow.World.Rows.{User, Referral, Login}
use testmellow.World.Exec.{Error, Exec, pure, ◌>>=◌, ◌>>◌, fail_if, query, modify_db, execute}
use testmellow.Repo.Users.{map_user}
use testmellow.Repo.Rewards.{first}

-- `column = $1`, which is not true of NULL.
abbrev pub equals : Option ℕ → ℕ → Bool
equals none x = false
equals (some y) x = y == x

unfoldable pub get_by_username : ℕ → Exec (Option (ℕ × User))
get_by_username name = query (λ d. first (rows_where (λ u. equals u.username name) d.users))

unfoldable pub get_by_referral_code : ℕ → Exec (Option (ℕ × User))
get_by_referral_code code = query (λ d. first (rows_where (λ u. u.referral_code == code) d.users))

abbrev others : ℕ → Table User → Table User
others id [] = []
others id ((k, u) ∷ t) = let rest = others id t in if k == id then rest else (k, u) ∷ rest

unfoldable pub count_users_from_ip : ℕ → ℕ → Exec ℕ
count_users_from_ip ip exclude =
    query (λ d. length (rows_where (λ u. equals u.last_known_ip ip) (others exclude d.users)))

unfoldable pub count_users_from_fingerprint : ℕ → ℕ → Exec ℕ
count_users_from_fingerprint fp exclude =
    if fp == 0
    then pure 0
    else query
        (λ d. length (rows_where (λ u. equals u.device_fingerprint fp) (others exclude d.users)))

unfoldable pub count_admins : Exec ℕ
count_admins = query (λ d. length (rows_where (λ u. u.is_admin) d.users))

-- The unique columns of `users`: the key, the name, the Telegram account, the referral code.
abbrev same_text : Option ℕ → Option ℕ → Bool
same_text none y = false
same_text (some x) y = equals y x

abbrev conflicts : User → ℕ × User → Bool
conflicts u (k, v) =
    same_text u.username v.username
    || same_text u.telegram_id v.telegram_id
    || (u.referral_code == v.referral_code)

-- `Create`
unfoldable pub create_user : ℕ → User → Exec (Unit {0})
create_user id u = do
  taken ← query (λ d. is_some (find id d.users) || exists (conflicts u) d.users)
  fail_if taken Error.unique_violation
  modify_db (λ d. record d { users = (id, u) ∷ d.users })

-- `CreateReferral`; `referee_id` is unique, and nobody is their own referrer.
abbrev same_referee : ℕ → ℕ × Referral → Bool
same_referee id (k, r) = r.referee_id == id

unfoldable pub create_referral : ℕ → Referral → Exec (Unit {0})
create_referral id r = do
  taken ←
      query (λ d. is_some (find id d.referrals) || exists (same_referee r.referee_id) d.referrals)
  fail_if taken Error.unique_violation
  fail_if (r.referrer_id == r.referee_id) Error.db_error
  modify_db (λ d. record d { referrals = (id, r) ∷ d.referrals })

unfoldable pub update_last_known_ip : ℕ → ℕ → Exec (Unit {0})
update_last_known_ip id ip = execute (map_user id (λ u. record u { last_known_ip = some ip }))

-- `CreateAccountActivity` for a login.
unfoldable pub create_account_activity : Login → Exec (Unit {0})
create_account_activity l = execute (λ d. record d { logins = l ∷ d.logins })

abbrev pub is_login_from : ℕ → ℕ → Login → Bool
is_login_from id agent l = (l.user_id == id) && equals l.user_agent agent

-- `HasSeenUserAgent`
unfoldable pub has_seen_user_agent : ℕ → ℕ → Exec Bool
has_seen_user_agent id agent = query (λ d. exists (is_login_from id agent) d.logins)
