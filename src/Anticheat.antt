-- ===== src/Anticheat.antt =====
-- internal/anticheat/engine.go: the pure part, risk scores and rewards. The counters are in Redis.
-- Scores are signed (`int`); amounts are YAD.
pub mod Bounds
use testmellow.Prelude.{ℕ, ◌+◌, ◌*◌, ◌/◌, Bool, true, false, ltb, leb, ◌==◌, if◌then◌else◌}
use testmellow.Prelude.Int.{ℤ, pos, negsuc, leb_ℤ, ltb_ℤ}

abbrev pub max_daily_yad_credit : ℕ
max_daily_yad_credit = 5000

abbrev pub max_daily_referrals : ℕ
max_daily_referrals = 10

abbrev pub max_login_attempts : ℕ
max_login_attempts = 10

abbrev pub risk_score_block : ℕ
risk_score_block = 80

abbrev pub risk_score_warn : ℕ
risk_score_warn = 50

abbrev pub bonus_reduction_numerator : ℕ
bonus_reduction_numerator = 1

abbrev pub bonus_reduction_denominator : ℕ
bonus_reduction_denominator = 2

abbrev pub delta_self_referral : ℕ
delta_self_referral = 50

abbrev pub delta_same_ip_reg : ℕ
delta_same_ip_reg = 20

abbrev pub delta_same_fp_reg : ℕ
delta_same_fp_reg = 25

-- Rewards are computed from positive payments, so the amount is a natural number here.
unfoldable pub adjust_reward_for_risk : ℕ → ℤ → ℕ
adjust_reward_for_risk original_yad risk_score =
    if leb_ℤ (pos risk_score_block) risk_score
    then 0
    else if leb_ℤ (pos risk_score_warn) risk_score
    then original_yad * bonus_reduction_numerator / bonus_reduction_denominator
    else original_yad

unfoldable pub is_high_risk : ℤ → Bool
is_high_risk risk_score = leb_ℤ (pos risk_score_block) risk_score

unfoldable pub clamp_risk_score : ℤ → ℤ
clamp_risk_score score =
    if ltb_ℤ score (pos 0) then pos 0 else if ltb_ℤ (pos 100) score then pos 100 else score

-- `min` of the file.
unfoldable pub min_int : ℕ → ℕ → ℕ
min_int a b = if ltb a b then a else b

-- The counts are results of `COUNT(*)`.
unfoldable pub scope_registration_risk : ℕ → ℕ → ℤ
unfolding clamp_risk_score min_int
scope_registration_risk same_ip_count same_fp_count =
    let by_ip = if ltb 0 same_ip_count then delta_same_ip_reg * min_int same_ip_count 3 else 0 in
    let by_fp = if ltb 0 same_fp_count then delta_same_fp_reg * min_int same_fp_count 3 else 0 in
    clamp_risk_score (pos (by_ip + by_fp))

unfoldable pub check_self_referral : ℕ → ℕ → Bool
check_self_referral user_id referrer_id = if user_id == referrer_id then false else true
