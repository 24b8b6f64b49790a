-- ===== src/Http/Balance.antt =====
-- The handlers of sessions and of the profile keep the ledger balanced.
use testmellow.Prelude.{ℕ, Bool, Option, List}
use testmellow.World.Keeps.{Keeps, keeps_rules, Keeps-raise}
use testmellow.Redis.Limits.Reads.{check_rate_limit-Keeps}
use testmellow.Redis.Reads.{session_rules}
use testmellow.Ledger.{IsBalanced}
use testmellow.Ledger.Users.{user_rules}
use testmellow.Ledger.Profiles.{profile_rules}
use testmellow.Jwt.{TokenLibrary, TokenClaims, generate, generate_refresh}
use testmellow.Auth.Register.{RegisterInput}
use testmellow.Auth.Login.{LoginInput}
use testmellow.Auth.Balance.{register-IsBalanced, login-IsBalanced}
use testmellow.Http.Auth.{
  UuidFormat, issue_tokens, refuse_replay, accept_stored, redeem_refresh, exchange, refresh, logout,
  login_handler, approve, tfa_check, register_handler,
}
use testmellow.Http.Profile.{
  profile, change_password, update_telegram, generate_unlink_code, toggle_tfa, generate_link_code,
}
use testmellow.World.Exec.{Error}

ruleset handler_rules =
    (keeps_rules, user_rules, profile_rules, session_rules, check_rate_limit-Keeps)

profile-IsBalanced : (id : ℕ) → Keeps IsBalanced (profile id)
unfolding profile
profile-IsBalanced id = search handler_rules depth 12

pub change_password-IsBalanced :
    (compare : ℕ → ℕ → Bool) (hash : ℕ → Option ℕ) (id old new : ℕ) (long : Bool)
    → Keeps IsBalanced (change_password compare hash id old new long)
unfolding change_password
change_password-IsBalanced compare hash id old new long =
    search (handler_rules, profile-IsBalanced) depth 24

pub update_telegram-IsBalanced :
    (id code : ℕ) (asks : Bool) → Keeps IsBalanced (update_telegram id code asks)
unfolding update_telegram
update_telegram-IsBalanced id code asks = search (handler_rules, profile-IsBalanced) depth 20

pub generate_unlink_code-IsBalanced : (id : ℕ) → Keeps IsBalanced (generate_unlink_code id)
unfolding generate_unlink_code
generate_unlink_code-IsBalanced id = search (handler_rules, profile-IsBalanced) depth 16

pub toggle_tfa-IsBalanced : (id : ℕ) (b : Bool) → Keeps IsBalanced (toggle_tfa id b)
unfolding toggle_tfa
toggle_tfa-IsBalanced id b = search (handler_rules, profile-IsBalanced) depth 12

pub generate_link_code-IsBalanced : (id : ℕ) → Keeps IsBalanced (generate_link_code id)
unfolding generate_link_code
generate_link_code-IsBalanced id = search handler_rules depth 12

module _ {Token : Type 0} (lib : TokenLibrary Token) where
  generate-IsBalanced : (id : ℕ) (a : Bool) → Keeps IsBalanced (generate lib id a)
  unfolding generate
  generate-IsBalanced id a = search keeps_rules depth 12

  generate_refresh-IsBalanced : (id : ℕ) (a : Bool) → Keeps IsBalanced (generate_refresh lib id a)
  unfolding generate_refresh
  generate_refresh-IsBalanced id a = search keeps_rules depth 12

  issue_tokens-IsBalanced : (id : ℕ) (a : Bool) → Keeps IsBalanced (issue_tokens lib id a)
  unfolding issue_tokens
  issue_tokens-IsBalanced id a =
      search (handler_rules, generate-IsBalanced, generate_refresh-IsBalanced) depth 12

  refuse_replay-IsBalanced : (c : TokenClaims) (e : Error) → Keeps IsBalanced (refuse_replay c e)
  unfolding refuse_replay
  refuse_replay-IsBalanced c Error.refresh_revoked = search handler_rules depth 16
  refuse_replay-IsBalanced c e = Keeps-raise _

  redeem_refresh-IsBalanced : (c : TokenClaims) → Keeps IsBalanced (redeem_refresh c)
  unfolding redeem_refresh accept_stored
  redeem_refresh-IsBalanced c = search (handler_rules, refuse_replay-IsBalanced) depth 16

  pub refresh-IsBalanced : (cookie : Option Token) → Keeps IsBalanced (refresh lib cookie)
  unfolding refresh exchange
  refresh-IsBalanced cookie =
      search (handler_rules, redeem_refresh-IsBalanced, issue_tokens-IsBalanced) depth 16

  pub logout-IsBalanced : (cookie : Option Token) → Keeps IsBalanced (logout lib cookie)
  unfolding logout
  logout-IsBalanced cookie = search handler_rules depth 12

  module _ (uuid : UuidFormat) where
    pub login_handler-IsBalanced :
        (compare : ℕ → ℕ → Bool) (i : LoginInput)
        → Keeps IsBalanced (login_handler lib uuid compare i)
    unfolding login_handler
    login_handler-IsBalanced compare i =
        search (handler_rules, login-IsBalanced, issue_tokens-IsBalanced) depth 16

    approve-IsBalanced : (u : List ℕ) → Keeps IsBalanced (approve lib uuid u)
    unfolding approve
    approve-IsBalanced u = search (handler_rules, issue_tokens-IsBalanced) depth 12

    pub tfa_check-IsBalanced : (id n : ℕ) → Keeps IsBalanced (tfa_check lib uuid id n)
    unfolding tfa_check
    tfa_check-IsBalanced id n = search (handler_rules, approve-IsBalanced) depth 12

  pub register_handler-IsBalanced :
      (hash : ℕ → Option ℕ) (admin_token : ℕ) (ok_ : Bool) (i : RegisterInput)
      → Keeps IsBalanced (register_handler lib hash admin_token ok_ i)
  unfolding register_handler
  register_handler-IsBalanced hash admin_token ok_ i =
      search (handler_rules, register-IsBalanced, issue_tokens-IsBalanced) depth 12
