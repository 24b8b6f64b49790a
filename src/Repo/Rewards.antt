-- ===== src/Repo/Rewards.antt =====
-- user_repo.go: referrals and their rewards.
pub mod Once
use testmellow.Prelude.{
  ℕ, Bool, true, false, ◌&&◌, Option, none, some, [], ◌∷◌, leb, ◌==◌, if◌then◌else◌, Table, take,
  find, update, rows_where,
}
use testmellow.Prelude.Int.{ℤ, ◌+ℤ◌}
use testmellow.Domain.{RewardSplitStatus}
use testmellow.World.Rows.{Db, Referral, ReferralReward}
use testmellow.World.Exec.{Exec, pure, ◌>>=◌, ◌>>◌, query, modify_db, execute, now}

abbrev pub first {ℓ} : {A : Type ℓ} → Table A → Option (ℕ × A)
first [] = none
first (r ∷ t) = some r

unfoldable pub get_referral_by_referee : ℕ → Exec (Option (ℕ × Referral))
get_referral_by_referee referee_id =
    query (λ d. first (rows_where (λ r. r.referee_id == referee_id) d.referrals))

unfoldable pub update_referral_totals : ℕ → ℤ → ℤ → Exec (Unit {0})
update_referral_totals referral_id ltv_delta reward_delta = execute λ d. record d {
  referrals =
      update referral_id
        (λ r. record r {
          total_paid_ltv = r.total_paid_ltv +ℤ ltv_delta;
          total_reward = r.total_reward +ℤ reward_delta;
        })
        d.referrals;
}

abbrev pub reward_of_payment : ℕ → Db → Option (ℕ × ReferralReward)
reward_of_payment payment_id d =
    first (rows_where (λ r. r.payment_id == payment_id) d.referral_rewards)

abbrev pub insert_reward : ℕ → ReferralReward → Db → Db
insert_reward id rr d = elim (reward_of_payment rr.payment_id d) [
  | none ↦ record d { referral_rewards = (id, rr) ∷ d.referral_rewards }
  | some _ ↦ d
]

-- `CreateReferralReward`, with `ON CONFLICT (payment_id) DO NOTHING`.
unfoldable pub create_referral_reward : ℕ → ReferralReward → Exec (Unit {0})
create_referral_reward id rr = execute (insert_reward id rr)

abbrev pub map_reward : ℕ → (ReferralReward → ReferralReward) → Db → Db
map_reward id f d = record d { referral_rewards = update id f d.referral_rewards }

unfoldable pub update_reward_status : ℕ → RewardSplitStatus → Exec (Unit {0})
update_reward_status id status = execute (map_reward id (λ r. record r { status = status }))

unfoldable pub get_reward_by_payment_id : ℕ → Exec (Option (ℕ × ReferralReward))
get_reward_by_payment_id payment_id = query (reward_of_payment payment_id)

unfoldable pub get_reward_by_id : ℕ → Exec (Option ReferralReward)
get_reward_by_id id = query (λ d. find id d.referral_rewards)

-- `status IN ('immediate','paid','pending')`
abbrev pub is_revertible : RewardSplitStatus → Bool
is_revertible RewardSplitStatus.immediate = true
is_revertible RewardSplitStatus.paid = true
is_revertible RewardSplitStatus.pending = true
is_revertible s = false

abbrev revertible_row : Option ReferralReward → Bool
revertible_row none = false
revertible_row (some r) = is_revertible r.status

-- `RevertReferralReward`: whether a row changed.
unfoldable pub revert_referral_reward : ℕ → Exec Bool
revert_referral_reward id = do
  row ← query (λ d. find id d.referral_rewards)
  if revertible_row row
      then (do
        modify_db (map_reward id (λ r. record r { status = RewardSplitStatus.reverted }))
        pure true)
      else pure false

abbrev pub is_pending_status : RewardSplitStatus → Bool
is_pending_status RewardSplitStatus.pending = true
is_pending_status s = false

-- `GetPendingRewardsDue`: at most 100 rows. (Their order does not matter to the callers.)
unfoldable pub get_pending_rewards_due : Exec (Table ReferralReward)
get_pending_rewards_due = do
  t ← now
  query λ d.
      take 100
        (rows_where (λ r. is_pending_status r.status && leb r.scheduled_at t) d.referral_rewards)
