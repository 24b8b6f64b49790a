-- ===== src/Ledger/Users.antt =====
-- The statements on users that move no YAD keep the ledger balanced whatever happens.
use testmellow.Prelude.{ℕ, ◌≡◌}
use testmellow.Prelude.Int.{ℤ}
use testmellow.World.Rows.{Db, User}
use testmellow.World.Keeps.{Keeps, keeps_rules}
use testmellow.Repo.Users.{
  map_user, get_by_id, lock_user_for_update, update_ltv, update_remna_uuid, set_trial_used_tx,
  increment_device_expansion_count, set_active_discount, get_active_discount, clear_active_discount,
}
use testmellow.Ledger.{IsBalanced}
use testmellow.Ledger.Statements.{map_user-IsBalanced}

map_user_same :
    (id : ℕ) (f : User → User)
    → ((u : User) → (f u).yad_balance ≡ u.yad_balance)
    → (d : Db) → IsBalanced d
    → IsBalanced (map_user id f d)
map_user_same id f same d b = map_user-IsBalanced id f d same b

module _ (id : ℕ) where
  pub get_by_id-IsBalanced : Keeps IsBalanced (get_by_id id)
  unfolding get_by_id
  get_by_id-IsBalanced = search keeps_rules

  pub lock_user-IsBalanced : Keeps IsBalanced (lock_user_for_update id)
  unfolding lock_user_for_update
  lock_user-IsBalanced = search keeps_rules

  pub update_ltv-IsBalanced : (x : ℤ) → Keeps IsBalanced (update_ltv id x)
  unfolding update_ltv
  update_ltv-IsBalanced x = search (keeps_rules, map_user_same)

  pub update_remna_uuid-IsBalanced : (x : ℕ) → Keeps IsBalanced (update_remna_uuid id x)
  unfolding update_remna_uuid
  update_remna_uuid-IsBalanced x = search (keeps_rules, map_user_same)

  pub set_trial_used_tx-IsBalanced : Keeps IsBalanced (set_trial_used_tx id)
  unfolding set_trial_used_tx
  set_trial_used_tx-IsBalanced = search (keeps_rules, map_user_same)

  pub increment-IsBalanced : Keeps IsBalanced (increment_device_expansion_count id)
  unfolding increment_device_expansion_count
  increment-IsBalanced = search (keeps_rules, map_user_same)

  pub set_active_discount-IsBalanced :
      (code : ℕ) (p : ℤ) → Keeps IsBalanced (set_active_discount id code p)
  unfolding set_active_discount
  set_active_discount-IsBalanced code p = search (keeps_rules, map_user_same)

  pub get_active_discount-IsBalanced : Keeps IsBalanced (get_active_discount id)
  unfolding get_active_discount
  get_active_discount-IsBalanced = search keeps_rules

  pub clear_active_discount-IsBalanced : Keeps IsBalanced (clear_active_discount id)
  unfolding clear_active_discount
  clear_active_discount-IsBalanced = search (keeps_rules, map_user_same)

pub ruleset user_rules = (
  get_by_id-IsBalanced, lock_user-IsBalanced, update_ltv-IsBalanced, update_remna_uuid-IsBalanced,
  set_trial_used_tx-IsBalanced, increment-IsBalanced, set_active_discount-IsBalanced,
  get_active_discount-IsBalanced, clear_active_discount-IsBalanced,
)
