-- ===== src/Domain/Statuses.antt =====
-- Equal codes are equal texts.
use testmellow.Prelude.{◌≡◌, arith}
use testmellow.Domain.{PaymentStatus, SubscriptionPlan, plan_code, payment_status_code}

pub plan_of_code : (p q : SubscriptionPlan) → plan_code p ≡ plan_code q → p ≡ q
plan_of_code p q h = ground arith

pub payment_status_of_code :
    (s t : PaymentStatus) → payment_status_code s ≡ payment_status_code t → s ≡ t
payment_status_of_code s t h = ground arith
