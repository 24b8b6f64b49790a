-- ===== src/Domain.antt =====
-- internal/domain/domain.go: the enumerations, the plan tables and the prices of device
-- expansions. The enumerations are Go strings: one that a request or the gateway can fill has
-- a constructor for any other text.
pub mod Pricing
pub mod Statuses
use testmellow.Prelude.{ℕ, ◌+◌, ◌*◌, ◌/◌, Bool, true, false, ◌||◌, ltb, leb, ◌==◌, if◌then◌else◌}

-- `opened` is "open".
pub data TicketStatus : Type 0 where
  opened answered closed : TicketStatus

pub data PaymentStatus : Type 0 where
  pending confirmed canceled chargebacked expired : PaymentStatus
  other : ℕ → PaymentStatus

unfoldable pub is_valid_payment_status : PaymentStatus → Bool
is_valid_payment_status (PaymentStatus.other n) = false
is_valid_payment_status s = true

pub data SubscriptionStatus : Type 0 where
  active expired trial canceled reverted : SubscriptionStatus

pub data YadTxType : Type 0 where
  referral_reward bonus spent promo trial chargeback_clawback admin_adjust : YadTxType

pub data RewardSplitStatus : Type 0 where
  pending immediate deferred paid blocked reverted : RewardSplitStatus

pub data PromoType : Type 0 where
  yad discount : PromoType

pub data SubscriptionPlan : Type 0 where
  week month three_month ninety_nine_years device_expansion device_expansion_2 : SubscriptionPlan
  other : ℕ → SubscriptionPlan

-- Texts are equal when their codes are.
abbrev pub plan_code : SubscriptionPlan → ℕ
plan_code SubscriptionPlan.week = 0
plan_code SubscriptionPlan.month = 1
plan_code SubscriptionPlan.three_month = 2
plan_code SubscriptionPlan.ninety_nine_years = 3
plan_code SubscriptionPlan.device_expansion = 4
plan_code SubscriptionPlan.device_expansion_2 = 5
plan_code (SubscriptionPlan.other n) = 6 + n

abbrev pub plan_eq : SubscriptionPlan → SubscriptionPlan → Bool
plan_eq p q = plan_code p == plan_code q

abbrev pub payment_status_code : PaymentStatus → ℕ
payment_status_code PaymentStatus.pending = 0
payment_status_code PaymentStatus.confirmed = 1
payment_status_code PaymentStatus.canceled = 2
payment_status_code PaymentStatus.chargebacked = 3
payment_status_code PaymentStatus.expired = 4
payment_status_code (PaymentStatus.other n) = 5 + n

abbrev pub payment_status_eq : PaymentStatus → PaymentStatus → Bool
payment_status_eq s t = payment_status_code s == payment_status_code t

unfoldable pub plan_price_kopecks : SubscriptionPlan → ℕ
plan_price_kopecks SubscriptionPlan.week = 4000
plan_price_kopecks SubscriptionPlan.month = 10000
plan_price_kopecks SubscriptionPlan.three_month = 27000
plan_price_kopecks p = 0

unfoldable pub plan_duration_days : SubscriptionPlan → ℕ
plan_duration_days SubscriptionPlan.week = 7
plan_duration_days SubscriptionPlan.month = 30
plan_duration_days SubscriptionPlan.three_month = 90
plan_duration_days SubscriptionPlan.ninety_nine_years = 36135
plan_duration_days p = 0

unfoldable pub plan_yad_bonus : SubscriptionPlan → ℕ
plan_yad_bonus SubscriptionPlan.week = 10
plan_yad_bonus SubscriptionPlan.month = 25
plan_yad_bonus SubscriptionPlan.three_month = 75
plan_yad_bonus p = 0

unfoldable pub plan_yad_price : SubscriptionPlan → ℕ
plan_yad_price SubscriptionPlan.week = 30
plan_yad_price SubscriptionPlan.month = 75
plan_yad_price SubscriptionPlan.three_month = 210
plan_yad_price p = 0

abbrev pub device_max_per_user : ℕ
device_max_per_user = 4

abbrev pub device_expansion_max_extra : ℕ
device_expansion_max_extra = 2

unfoldable pub is_device_expansion_plan : SubscriptionPlan → Bool
is_device_expansion_plan p =
    plan_eq p SubscriptionPlan.device_expansion || plan_eq p SubscriptionPlan.device_expansion_2

unfoldable pub device_expansion_quantity : SubscriptionPlan → ℕ
device_expansion_quantity p = if plan_eq p SubscriptionPlan.device_expansion_2 then 2 else 1

unfoldable pub device_expansion_unit_kopecks : ℕ → ℕ
device_expansion_unit_kopecks days_remaining =
    if ltb 30 days_remaining then 10000 else if leb 8 days_remaining then 4000 else 2000

unfoldable pub device_expansion_unit_yad : ℕ → ℕ
device_expansion_unit_yad days_remaining =
    if ltb 30 days_remaining then 50 else if leb 8 days_remaining then 20 else 10

-- The second slot is 10% cheaper; the quotient is Go's integer division.
unfoldable pub device_expansion_kopecks : ℕ → ℕ → ℕ
unfolding device_expansion_unit_kopecks
device_expansion_kopecks qty days_remaining =
    let unit = device_expansion_unit_kopecks days_remaining in
    if qty == 2 then unit + unit * 9 / 10 else unit

unfoldable pub device_expansion_yad : ℕ → ℕ → ℕ
unfolding device_expansion_unit_yad
device_expansion_yad qty days_remaining =
    let unit = device_expansion_unit_yad days_remaining in
    if qty == 2 then unit + unit * 9 / 10 else unit
