-- ===== src/Repo/Rewards/Once.antt =====
-- user_repo.go, `RevertReferralReward`: a reward is reverted once.
use testmellow.Prelude.{ℕ, ◌≡◌, Bool, true, false, arith, find-update, Option-cases, inl, inr, find}
use testmellow.Domain.{RewardSplitStatus}
use testmellow.World.Rows.{ReferralReward}
use testmellow.World.Exec.{World, ok, ◌>>=◌, query, modify_db, remote, Result_cases}
use testmellow.Repo.Rewards.{revert_referral_reward}

abbrev reverted : ReferralReward → ReferralReward
reverted r = record r { status = RewardSplitStatus.reverted }

-- RevertReferralReward reports a change for a reward at most once: after a call that returned true,
-- and with no other statement between them, a second call that succeeds returns false.
pub revert_referral_reward-once :
    (id : ℕ) (w w' : World) (b : Bool)
    → (revert_referral_reward id w).0 ≡ ok true
    → w'.db ≡ (revert_referral_reward id w).1.db
    → (revert_referral_reward id w').0 ≡ ok b
    → b ≡ false
unfolding revert_referral_reward ◌>>=◌ query modify_db
revert_referral_reward-once id w w' b h d k = elim (Result_cases (remote w).0) [
  | inl (n, r) ↦ elim (Option-cases (find id w.db.referral_rewards)) [
    | inl q ↦ ground (arith, r, q, h)
    | inr (v, q) ↦ elim (Result_cases (remote w').0) [
      | inl (m, s) ↦
          ground (arith, r, s, q, h, d, k, find-update id id reverted w.db.referral_rewards)
      | inr (e, s) ↦ ground (arith, s, k)
    ]
  ]
  | inr (e, r) ↦ ground (arith, r, h)
]
