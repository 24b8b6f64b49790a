-- ===== src/Worker/Rewards.antt =====
-- worker.go: `handleReferralReward`, `handleReferralPayout` and the sweep over pending rewards.
use testmellow.Prelude.{
  ℕ, ◌*◌, ◌/◌, Bool, true, false, Option, none, some, leb, ◌==◌, if◌then◌else◌,
}
use testmellow.Prelude.Int.{ℤ, pos, pos_part, to_int64}
use testmellow.Domain.{RewardSplitStatus, YadTxType}
use testmellow.Anticheat.{adjust_reward_for_risk, is_high_risk}
use testmellow.World.Rows.{User, Referral, ReferralReward}
use testmellow.World.Exec.{
  Error, Result, ok, err, Exec, pure, raise, lift, attempt, atomically, ◌>>=◌, ◌>>◌, on_option,
  on_result, for_each, now, new_id, remote, transaction, ignore,
}
use testmellow.Redis.Once.{payout_lock_key, sweep_lock_key, try_lock, unlock}
use testmellow.Repo.Users.{get_by_id, adjust_yad_balance}
use testmellow.Repo.Rewards.{
  get_referral_by_referee, update_referral_totals, create_referral_reward, update_reward_status,
  get_reward_by_id, get_pending_rewards_due, is_pending_status,
}

-- 15% of the payment, one YAD for 250 kopecks, and at least one YAD. The product is an `int64`; a
-- negative one gives a total that is not above 0.
unfoldable pub reward_for : ℕ → ℕ
unfolding to_int64
reward_for paid_kopecks =
    let total = pos_part (to_int64 (paid_kopecks * 15)) / 100 / 250 in
    if leb total 0 then 1 else total

-- The transaction of `handleReferralReward`.
unfoldable pub pay_reward :
    (payment_id referral_id : ℕ) → Referral → ℤ → (paid total : ℕ) → Exec (Unit {0})
pay_reward payment_id referral_id referral risk paid total = do
  id ← new_id
  t ← now
  transaction do
    create_referral_reward id (record {
      referral_id = referral_id;
      payment_id = payment_id;
      referrer_id = referral.referrer_id;
      amount_yad = total;
      immediate_yad = total;
      deferred_yad = 0;
      status = RewardSplitStatus.pending;
      risk_score = risk;
      scheduled_at = t;
      deferred_at = none;
    })
    update_referral_totals referral_id (pos paid) (pos total)
    adjust_yad_balance referral.referrer_id (pos total) YadTxType.referral_reward (some id)
    update_reward_status id RewardSplitStatus.immediate

-- `referrer, err := GetByID(…); if err != nil || referrer == nil`
unfoldable pub require_referrer : ℕ → Exec User
require_referrer id = do
  row ← attempt (get_by_id id)
  on_result row (λ _. raise Error.referrer_not_found)
      λ found. on_option found (raise Error.referrer_not_found) pure

-- `handleReferralReward`
unfoldable pub handle_referral_reward : ℕ → ℕ → ℕ → Exec (Unit {0})
unfolding reward_for pay_reward require_referrer
handle_referral_reward payment_id referee_id paid_kopecks = do
  row ← get_referral_by_referee referee_id
  on_option row (pure tt) λ (referral_id, referral). do
    referrer ← require_referrer referral.referrer_id
    if is_high_risk referrer.risk_score then pure tt else do
      if leb paid_kopecks 0 then pure tt else do
        let total = adjust_reward_for_risk (reward_for paid_kopecks) referrer.risk_score
        if total == 0
            then pure tt
            else pay_reward payment_id referral_id referral referrer.risk_score paid_kopecks total

-- `TryLock`, where an error counts as not locked.
abbrev lock_token : Result (ℕ × Bool) → Option ℕ
lock_token (err e) = none
lock_token (ok (token, false)) = none
lock_token (ok (token, true)) = some token

pending_reward : Option ReferralReward → Option ReferralReward
pending_reward none = none
pending_reward (some r) = if is_pending_status r.status then some r else none

-- The part of `handleReferralPayout` under the lock: only a pending reward is paid.
unfoldable pub pay_out : ℕ → Exec (Unit {0})
unfolding pending_reward
pay_out reward_id = do
  remote
  row ← get_reward_by_id reward_id
  on_option (pending_reward row) (pure tt) λ r. atomically do
    adjust_yad_balance r.referrer_id (pos r.immediate_yad) YadTxType.referral_reward
        (some reward_id)
    update_reward_status reward_id RewardSplitStatus.immediate
    remote
    pure tt

-- `handleReferralPayout`; the lock is released whatever happened.
unfoldable pub handle_referral_payout : ℕ → Exec (Unit {0})
unfolding pay_out
handle_referral_payout reward_id = do
  locked ← attempt (try_lock (payout_lock_key reward_id) 300)
  on_option (lock_token locked) (pure tt) λ token. do
    r ← attempt (pay_out reward_id)
    ignore (unlock (payout_lock_key reward_id) token)
    lift r

-- One reward of `payoutPendingRewards`: an error is logged and ends its turn.
unfoldable pub sweep_reward : ℕ × ReferralReward → Exec (Unit {0})
sweep_reward (reward_id, r) = do
  locked ← attempt (try_lock (sweep_lock_key reward_id) 120)
  on_option (lock_token locked) (pure tt) λ token. do
    ignore (
        transaction do
          adjust_yad_balance r.referrer_id (pos r.immediate_yad) YadTxType.referral_reward
              (some reward_id)
          update_reward_status reward_id RewardSplitStatus.immediate)
    ignore (unlock (sweep_lock_key reward_id) token)

-- `payoutPendingRewards`
unfoldable pub payout_pending_rewards : Exec (Unit {0})
unfolding sweep_reward
payout_pending_rewards = do
  rewards ← attempt get_pending_rewards_due
  on_result rewards (λ _. pure tt) λ rs. for_each rs sweep_reward
