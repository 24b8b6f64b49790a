-- ===== src/Bot/Balance.antt =====
-- The commands of the bot keep the ledger balanced.
use testmellow.Prelude.{ℕ, ◌≡◌, Bool, false, Option, none, some, arith}
use testmellow.World.Rows.{User}
use testmellow.World.Keeps.{Keeps, keeps_rules, Keeps-bind, Keeps-if, Keeps-pure}
use testmellow.Redis.Limits.Reads.{check_rate_limit-Keeps}
use testmellow.Redis.Reads.{session_rules, take_code-Keeps}
use testmellow.Redis.Codes.{link_key}
use testmellow.Repo.Merge.Complete.{merge_users-IsBalanced}
use testmellow.Ledger.{IsBalanced}
use testmellow.Ledger.Users.{user_rules}
use testmellow.Ledger.Profiles.{profile_rules, get_by_telegram_id-Keeps}
use testmellow.Http.Auth.{UuidFormat}
use testmellow.Bot.{
  absorbed, is_linked, handle_link, handle_unlink, reset_password, handle_reset_password,
  check_callback, handle_tfa_callback,
}

absorbed-IsBalanced :
    (user_id : ℕ) (row : Option (ℕ × User))
    → is_linked user_id row ≡ false
    → Keeps IsBalanced (absorbed user_id row)
absorbed-IsBalanced user_id none n = Keeps-pure tt
absorbed-IsBalanced user_id (some (id, u)) n =
    merge_users-IsBalanced id user_id (λ e. ground (arith, n, e))

pub handle_link-IsBalanced : (tg code : ℕ) → Keeps IsBalanced (handle_link tg code)
unfolding handle_link
handle_link-IsBalanced tg code = Keeps-bind _ _ (take_code-Keeps (link_key code)) (λ user_id.
    Keeps-bind _ _ (get_by_telegram_id-Keeps tg) (λ row.
      Keeps-if (is_linked user_id row) _ _ (λ _. Keeps-pure tt)
        (λ n.
          Keeps-bind _ _ (absorbed-IsBalanced user_id row n)
            (λ _. search (keeps_rules, profile_rules) depth 12))))

pub handle_unlink-IsBalanced : (tg : ℕ) → Keeps IsBalanced (handle_unlink tg)
unfolding handle_unlink
handle_unlink-IsBalanced tg =
    search (keeps_rules, profile_rules, session_rules, check_rate_limit-Keeps) depth 14

module _ (hash : ℕ → Option ℕ) where
  reset_password-IsBalanced : (id : ℕ) → Keeps IsBalanced (reset_password hash id)
  unfolding reset_password
  reset_password-IsBalanced id = search (keeps_rules, profile_rules, session_rules) depth 20

  pub handle_reset_password-IsBalanced : (tg : ℕ) → Keeps IsBalanced (handle_reset_password hash tg)
  unfolding handle_reset_password
  handle_reset_password-IsBalanced tg =
      search (keeps_rules, profile_rules, check_rate_limit-Keeps, reset_password-IsBalanced) depth
        14

module _ (uuid : UuidFormat) where
  check_callback-IsBalanced : (tg id : ℕ) → Keeps IsBalanced (check_callback uuid tg id)
  unfolding check_callback
  check_callback-IsBalanced tg id = search (keeps_rules, user_rules, session_rules) depth 14

  pub handle_tfa_callback-IsBalanced :
      (tg id : ℕ) (approve : Bool) → Keeps IsBalanced (handle_tfa_callback uuid tg id approve)
  unfolding handle_tfa_callback
  handle_tfa_callback-IsBalanced tg id approve =
      search (keeps_rules, session_rules, check_callback-IsBalanced) depth 12
