-- ===== src/Redis/Reads.antt =====
-- The commands on tokens, codes and challenges leave the database alone.
use testmellow.Prelude.{ℕ, Bool, List}
use testmellow.World.Rows.{Db}
use testmellow.World.Keeps.{Keeps, reads_rules}
use testmellow.Redis.Store.{Key}
use testmellow.Redis.Limits.Reads.{script-Keeps}
use testmellow.Redis.Sessions.{
  register_refresh_token, validate_and_revoke, revoke, revoke_all, set_password_version,
  check_password_version, banned_check, set_ban_key,
}
use testmellow.Redis.Codes.{set_code, take_code}
use testmellow.Redis.Challenge.Commands.{
  create_2fa_challenge, get_2fa_challenge, resolve_2fa_challenge,
}

module _ {Q : Db → Type 0} where
  pub register_refresh_token-Keeps : (i u t : ℕ) → Keeps Q (register_refresh_token i u t)
  unfolding register_refresh_token
  register_refresh_token-Keeps i u t = script-Keeps _

  pub validate_and_revoke-Keeps : (i : ℕ) → Keeps Q (validate_and_revoke i)
  unfolding validate_and_revoke
  validate_and_revoke-Keeps i = search (reads_rules, script-Keeps) depth 12

  pub revoke-Keeps : (i : ℕ) → Keeps Q (revoke i)
  unfolding revoke
  revoke-Keeps i = script-Keeps _

  pub revoke_all-Keeps : (u : ℕ) → Keeps Q (revoke_all u)
  unfolding revoke_all
  revoke_all-Keeps u = search (reads_rules, script-Keeps)

  pub set_password_version-Keeps : (u t : ℕ) → Keeps Q (set_password_version u t)
  unfolding set_password_version
  set_password_version-Keeps u t = script-Keeps _

  pub check_password_version-Keeps : (u t : ℕ) → Keeps Q (check_password_version u t)
  unfolding check_password_version
  check_password_version-Keeps u t = search (reads_rules, script-Keeps)

  pub banned_check-Keeps : (u : ℕ) → Keeps Q (banned_check u)
  unfolding banned_check
  banned_check-Keeps u = search (reads_rules, script-Keeps)

  pub set_ban_key-Keeps : (u : ℕ) (b : Bool) → Keeps Q (set_ban_key u b)
  unfolding set_ban_key
  set_ban_key-Keeps u Bool.true = script-Keeps _
  set_ban_key-Keeps u Bool.false = script-Keeps _

  pub set_code-Keeps : (k : Key) (u t : ℕ) → Keeps Q (set_code k u t)
  unfolding set_code
  set_code-Keeps k u t = script-Keeps _

  pub take_code-Keeps : (k : Key) → Keeps Q (take_code k)
  unfolding take_code
  take_code-Keeps k = search (reads_rules, script-Keeps)

  pub create_2fa_challenge-Keeps : (i : ℕ) (u : List ℕ) → Keeps Q (create_2fa_challenge i u)
  unfolding create_2fa_challenge
  create_2fa_challenge-Keeps i u = script-Keeps _

  pub get_2fa_challenge-Keeps : (i : ℕ) → Keeps Q (get_2fa_challenge i)
  unfolding get_2fa_challenge
  get_2fa_challenge-Keeps i = script-Keeps _

  pub resolve_2fa_challenge-Keeps : (i : ℕ) (s : List ℕ) → Keeps Q (resolve_2fa_challenge i s)
  unfolding resolve_2fa_challenge
  resolve_2fa_challenge-Keeps i s = script-Keeps _

pub ruleset session_rules = (
  register_refresh_token-Keeps, validate_and_revoke-Keeps, revoke-Keeps, revoke_all-Keeps,
  set_password_version-Keeps, check_password_version-Keeps, banned_check-Keeps, set_ban_key-Keeps,
  set_code-Keeps, take_code-Keeps, create_2fa_challenge-Keeps, get_2fa_challenge-Keeps,
  resolve_2fa_challenge-Keeps,
)
