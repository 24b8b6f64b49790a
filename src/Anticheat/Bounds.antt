-- ===== src/Anticheat/Bounds.antt =====
-- What the risk arithmetic guarantees.
use testmellow.Prelude.{ℕ, ◌+◌, ◌*◌, ◌≤◌, ◌≡◌, ◌↔◌, true, arith}
use testmellow.Prelude.Int.{ℤ, pos, ◌≤ℤ◌}
use testmellow.Anticheat.{
  adjust_reward_for_risk, is_high_risk, clamp_risk_score, scope_registration_risk,
}

-- The adjusted reward never grows with the risk score and never exceeds the original; a blocked
-- score (80 or more) gets nothing, a warned one (50 to 79) loses the larger half, and a lower one
-- keeps all.
adjust_reward_for_risk_bounds :
    (yad : ℕ) (low high : ℤ)
    → low ≤ℤ high
    → (adjust_reward_for_risk yad high ≤ adjust_reward_for_risk yad low)
      × (adjust_reward_for_risk yad low ≤ yad)
      × (is_high_risk high ≡ true → adjust_reward_for_risk yad high ≡ 0)
      × (pos 50 ≤ℤ low → 2 * adjust_reward_for_risk yad low ≤ yad)
      × (high ≤ℤ pos 49 → adjust_reward_for_risk yad high ≡ yad)
unfolding adjust_reward_for_risk is_high_risk
adjust_reward_for_risk_bounds yad low high h = ground arith

-- A registration's score lies in 0 to 100, grows with both counts, and is zero exactly when neither
-- the address nor the fingerprint was seen before.
scope_registration_risk_bounds :
    (ip fp ip' fp' : ℕ)
    → ip ≤ ip'
    → fp ≤ fp'
    → (pos 0 ≤ℤ scope_registration_risk ip fp)
      × (scope_registration_risk ip fp ≤ℤ pos 100)
      × (scope_registration_risk ip fp ≤ℤ scope_registration_risk ip' fp')
      × ((scope_registration_risk ip fp ≡ pos 0) ↔ (ip + fp ≡ 0))
unfolding scope_registration_risk
scope_registration_risk_bounds ip fp ip' fp' h k = ground arith

-- Clamping lands in 0 to 100 and leaves what lies there.
pub clamp_risk_score_bounds :
    (s : ℤ)
    → (pos 0 ≤ℤ clamp_risk_score s)
      × (clamp_risk_score s ≤ℤ pos 100)
      × (pos 0 ≤ℤ s → s ≤ℤ pos 100 → clamp_risk_score s ≡ s)
unfolding clamp_risk_score
clamp_risk_score_bounds s = ground arith
