-- ===== src/Trial/Balance.antt =====
-- Trials keep the ledger balanced.
use testmellow.Prelude.{ℕ}
use testmellow.World.Rows.{User}
use testmellow.World.Keeps.{Keeps, keeps_rules}
use testmellow.Ledger.{IsBalanced}
use testmellow.Ledger.Users.{user_rules}
use testmellow.Ledger.Tables.{table_rules}
use testmellow.Economy.Balance.{require_user-IsBalanced, refresh_account-Keeps, recover_user-Keeps}
use testmellow.Trial.{sync_trial, commit_trial, activate_trial}

ruleset trial_rules = (
  keeps_rules, user_rules, table_rules, require_user-IsBalanced, refresh_account-Keeps,
  recover_user-Keeps,
)

sync_trial-IsBalanced :
    (id sub : ℕ) (u : User) (expiry : ℕ) → Keeps IsBalanced (sync_trial id sub u expiry)
unfolding sync_trial
sync_trial-IsBalanced id sub u expiry = search trial_rules depth 20

pub activate_trial-IsBalanced : (id : ℕ) → Keeps IsBalanced (activate_trial id)
unfolding activate_trial commit_trial
activate_trial-IsBalanced id = search (trial_rules, sync_trial-IsBalanced) depth 20
