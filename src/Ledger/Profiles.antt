-- ===== src/Ledger/Profiles.antt =====
-- The statements of the profile and the administration keep the ledger balanced.
use testmellow.Prelude.{ℕ, ◌≡◌, Bool}
use testmellow.Prelude.Int.{ℤ}
use testmellow.World.Rows.{Db, User, Activity}
use testmellow.World.Keeps.{Keeps, keeps_rules}
use testmellow.Repo.Users.{map_user}
use testmellow.Repo.Profiles.{
  get_by_telegram_id, set_telegram_id, clear_telegram_id, set_password, set_tfa_enabled,
  update_ban_status, update_risk_score, create_activity,
}
use testmellow.Ledger.{IsBalanced}
use testmellow.Ledger.Statements.{map_user-IsBalanced}
use testmellow.Ledger.Tables.{same-IsBalanced}

map_user_same :
    (id : ℕ) (f : User → User)
    → ((u : User) → (f u).yad_balance ≡ u.yad_balance)
    → (d : Db) → IsBalanced d
    → IsBalanced (map_user id f d)
map_user_same id f same d b = map_user-IsBalanced id f d same b

module _ (id : ℕ) where
  pub get_by_telegram_id-Keeps : {Q : Db → Type 0} → Keeps Q (get_by_telegram_id id)
  unfolding get_by_telegram_id
  get_by_telegram_id-Keeps = search keeps_rules

  pub set_telegram_id-IsBalanced : (tg : ℕ) → Keeps IsBalanced (set_telegram_id id tg)
  unfolding set_telegram_id
  set_telegram_id-IsBalanced tg = search (keeps_rules, map_user_same)

  pub clear_telegram_id-IsBalanced : Keeps IsBalanced (clear_telegram_id id)
  unfolding clear_telegram_id
  clear_telegram_id-IsBalanced = search (keeps_rules, map_user_same)

  pub set_password-IsBalanced : (h : ℕ) → Keeps IsBalanced (set_password id h)
  unfolding set_password
  set_password-IsBalanced h = search (keeps_rules, map_user_same)

  pub set_tfa_enabled-IsBalanced : (b : Bool) → Keeps IsBalanced (set_tfa_enabled id b)
  unfolding set_tfa_enabled
  set_tfa_enabled-IsBalanced b = search (keeps_rules, map_user_same)

  pub update_ban_status-IsBalanced : (b : Bool) → Keeps IsBalanced (update_ban_status id b)
  unfolding update_ban_status
  update_ban_status-IsBalanced b = search (keeps_rules, map_user_same)

  pub update_risk_score-IsBalanced : (s : ℤ) → Keeps IsBalanced (update_risk_score id s)
  unfolding update_risk_score
  update_risk_score-IsBalanced s = search (keeps_rules, map_user_same)

pub create_activity-IsBalanced : (a : Activity) → Keeps IsBalanced (create_activity a)
unfolding create_activity
create_activity-IsBalanced a = search (keeps_rules, same-IsBalanced) depth 12

pub ruleset profile_rules = (
  get_by_telegram_id-Keeps, set_telegram_id-IsBalanced, clear_telegram_id-IsBalanced,
  set_password-IsBalanced, set_tfa_enabled-IsBalanced, update_ban_status-IsBalanced,
  update_risk_score-IsBalanced, create_activity-IsBalanced,
)
