-- ===== src/Tests/Sessions.antt =====
-- Runs of the first administrator, the password version and the reversal of a reward.
use testmellow.Prelude.{◌≡◌, refl, true, false, none, [], ◌∷◌, arith, find, update, some}
use testmellow.Prelude.Int.{pos}
use testmellow.Domain.{RewardSplitStatus}
use testmellow.World.Rows.{ReferralReward, User}
use testmellow.World.Exec.{Error, World, ok, err, ◌>>=◌, query, modify_db, remote, pure}
use testmellow.Redis.Limits.{script}
use testmellow.Redis.Sessions.{set_password_version, check_password_version}
use testmellow.Redis.Sessions.Version.{check_password_version-set}
use testmellow.Repo.Rewards.{revert_referral_reward}
use testmellow.Repo.Rewards.Once.{revert_referral_reward-once}
use testmellow.Auth.Register.{RegisterInput, new_user}
use testmellow.Tests.Worlds.{shop_db, sunny}

abbrev newcomer : RegisterInput
newcomer = record {
  username = 9;
  username_length = 5;
  password = 8;
  password_length = 12;
  referral_code = 0;
  device_fingerprint = 0;
  ip = 0;
  ip_ok = false;
  bootstrap_token = 77;
}

-- The users of the world have no administrator.
abbrev no_admin : World
no_admin = record sunny { db = record shop_db { users = [] } }

abbrev first_user : User
first_user = new_user (λ p. some p) 77 newcomer 8 0 (pos 0) true

-- A minute after the password of user 1 changed.
abbrev changed : World
changed = record (set_password_version 1 900 sunny).1 { clock = 1060 }

version_set : (set_password_version 1 900 sunny).0 ≡ ok tt
unfolding set_password_version script ◌>>=◌ remote
version_set = refl

redis_answers : (remote changed).0 ≡ ok 0
unfolding set_password_version script ◌>>=◌ remote
redis_answers = refl

check_password_version-set_example : (check_password_version 1 899 changed).0 ≡ err Error.forbidden
check_password_version-set_example =
    check_password_version-set 1 900 899 sunny changed 0 version_set refl (omega arith)
      redis_answers (omega arith)

-- Reward 4 of 300 YAD, paid.
abbrev paid_reward : ReferralReward
paid_reward = record {
  referral_id = 2;
  payment_id = 7;
  referrer_id = 1;
  amount_yad = 300;
  immediate_yad = 300;
  deferred_yad = 0;
  status = RewardSplitStatus.immediate;
  risk_score = pos 0;
  scheduled_at = 10;
  deferred_at = none;
}

abbrev rewarded : World
rewarded = record sunny { db = record sunny.db { referral_rewards = (4, paid_reward) ∷ [] } }

first_revert : (revert_referral_reward 4 rewarded).0 ≡ ok true
unfolding revert_referral_reward query modify_db ◌>>=◌ remote pure find
first_revert = refl

second_revert : (revert_referral_reward 4 (revert_referral_reward 4 rewarded).1).0 ≡ ok false
unfolding revert_referral_reward query modify_db ◌>>=◌ remote pure find update
second_revert = refl

revert_referral_reward-once_example : false ≡ false
revert_referral_reward-once_example =
    revert_referral_reward-once 4 rewarded (revert_referral_reward 4 rewarded).1 false first_revert
      refl second_revert
