-- ===== src/Billing/Webhook.antt =====
-- internal/handler/webhook/platega.go: the callback of Platega.
pub mod Jobs
pub mod Headers
use testmellow.Prelude.{
  ℕ, Bool, true, false, ◌&&◌, ◌||◌, not, Option, none, some, ◌==◌, if◌then◌else◌,
}
use testmellow.Prelude.Int.{ℤ, pos, ◌-ℤ◌, leb_ℤ, ltb_ℤ}
use testmellow.Domain.{PaymentStatus, payment_status_eq}
use testmellow.World.Rows.{Payment, Job}
use testmellow.World.Exec.{
  Error, Result, ok, err, Exec, pure, attempt, ◌>>=◌, ◌>>◌, on_option, on_result, enqueue, ignore,
}
use testmellow.Redis.Once.{set_nx, pay_queued_key}
use testmellow.Repo.Payments.{get_payment_by_id, ensure_webhook_event, mark_webhook_processed}
use testmellow.Billing.Gateway.{Gateway, GatewayConfig, verify_webhook_headers}

-- `CallbackPayload`; `amount_kopecks` is `int64(math.Round(cb.Amount * 100))`, whose float
-- arithmetic is not modelled.
pub record Callback : Type 0 where
  pub id : ℕ
  pub status : PaymentStatus
  pub amount_kopecks : ℤ

-- `absDelta`
unfoldable pub abs_delta : ℤ → ℤ → ℤ
abs_delta a b = if leb_ℤ b a then a -ℤ b else b -ℤ a

-- The statuses that the worker acts on.
abbrev pub is_final : PaymentStatus → Bool
is_final s =
    payment_status_eq s PaymentStatus.confirmed
    || payment_status_eq s PaymentStatus.canceled
    || payment_status_eq s PaymentStatus.chargebacked

-- Steps 6 and 7.
unfoldable pub enqueue_payment : Callback → ℕ → Payment → Exec (Unit {0})
enqueue_payment cb payment_id p = do
  queued ← attempt (enqueue (Job.payment_process payment_id p.user_id p.amount_kopecks cb.status))
  ignore (mark_webhook_processed cb.id cb.status)
  on_result queued (λ _. pure tt) λ _. ignore (set_nx (pay_queued_key cb.id) 1 86400)

-- The row of a payment, where an error counts as no row.
abbrev pub payment_row : Result (Option Payment) → Option Payment
payment_row (ok o) = o
payment_row (err e) = none

-- Steps 4 and 5.
unfoldable pub process_event : Gateway → Callback → Exec (Unit {0})
unfolding enqueue_payment
process_event gateway cb =
    on_option (gateway.parse_uuid cb.id) (ignore (mark_webhook_processed cb.id cb.status))
      λ payment_id. do
        row ← attempt (get_payment_by_id payment_id)
        on_option (payment_row row) (ignore (mark_webhook_processed cb.id cb.status)) λ p.
            if not (is_final cb.status)
            then ignore (mark_webhook_processed cb.id cb.status)
            else if ltb_ℤ (pos 1) (abs_delta cb.amount_kopecks (pos p.amount_kopecks))
            then ignore (mark_webhook_processed cb.id cb.status)
            else enqueue_payment cb payment_id p

abbrev pub is_first : Result Bool → Bool
is_first (ok b) = b
is_first (err e) = false

-- `Handle`: the answer is 200 whatever happens. The body is `none` where it is no JSON.
unfoldable pub handle :
    Gateway → GatewayConfig → (merchant_id secret : ℕ) → Option Callback → Exec (Unit {0})
unfolding process_event
handle gateway cfg merchant_id secret body =
    if not (verify_webhook_headers cfg merchant_id secret)
    then pure tt
    else on_option body (pure tt) λ cb. do
      is_new ← attempt (ensure_webhook_event cb.id cb.status)
      if not (is_first is_new) then pure tt else process_event gateway cb
