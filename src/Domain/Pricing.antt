-- ===== src/Domain/Pricing.antt =====
-- The plan tables against one another, and the tiers of the expansion prices.
use testmellow.Prelude.{ℕ, ◌*◌, ◌≤◌, ◌<◌, ◌≡◌, ◌≢◌, ◌↔◌, true, arith}
use testmellow.Domain.{
  SubscriptionPlan, plan_price_kopecks, plan_duration_days, plan_yad_bonus, plan_yad_price,
  is_device_expansion_plan, device_expansion_kopecks, device_expansion_yad,
}

-- A plan has a price in rubles exactly when it has one in YAD and exactly when its purchase earns a
-- bonus. Every such plan has a duration, its bonus is worth less than its price in YAD, and it is
-- no device expansion.
plan_tables_agree :
    (p : SubscriptionPlan)
    → ((0 < plan_price_kopecks p) ↔ (0 < plan_yad_price p))
      × ((0 < plan_price_kopecks p) ↔ (0 < plan_yad_bonus p))
      × (0 < plan_price_kopecks p
          → (0 < plan_duration_days p)
            × (plan_yad_bonus p < plan_yad_price p)
            × (is_device_expansion_plan p ≢ true))
unfolding plan_price_kopecks plan_duration_days plan_yad_bonus plan_yad_price
    is_device_expansion_plan
plan_tables_agree SubscriptionPlan.week = ground arith
plan_tables_agree p = ground arith

-- An expansion never gets dearer as the subscription runs out, in rubles and in YAD; the second
-- slot costs more than the first alone and at most as much as two of it; and YAD prices keep the
-- rate of 200 kopecks for one YAD.
device_expansion_tiers :
    (qty days later : ℕ)
    → later ≤ days
    → (device_expansion_kopecks qty later ≤ device_expansion_kopecks qty days)
      × (device_expansion_yad qty later ≤ device_expansion_yad qty days)
      × (device_expansion_yad 1 days < device_expansion_yad 2 days)
      × (device_expansion_yad 2 days ≤ 2 * device_expansion_yad 1 days)
      × (device_expansion_kopecks qty days ≡ 200 * device_expansion_yad qty days)
unfolding device_expansion_kopecks device_expansion_yad
device_expansion_tiers qty days later h = ground arith

-- The price of an upgrade from one extra device to two is positive and below the price of two.
pub device_expansion_upgrade :
    (days : ℕ)
    → (device_expansion_kopecks 1 days < device_expansion_kopecks 2 days)
      × (device_expansion_kopecks 2 days ≤ 2 * device_expansion_kopecks 1 days)
unfolding device_expansion_kopecks
device_expansion_upgrade days = ground arith
