-- ===== src/Billing/Gateway.antt =====
-- internal/integration/platega/client.go as its callers see it. Platega is not part of the
-- repository: what an answer of it says is given by functions of the number that the call returns.
use testmellow.Prelude.{ℕ, Bool, true, false, ◌&&◌, not, Option, ◌==◌, if◌then◌else◌}
use testmellow.Domain.{PaymentStatus}

pub record Gateway : Type 0 where
  -- `uuid.Parse` of a transaction id.
  pub parse_uuid : ℕ → Option ℕ
  -- `transaction_id` and `redirect` in the answer of `CreatePayment`.
  pub transaction_of : ℕ → ℕ
  pub redirect_of : ℕ → ℕ
  -- `status` in the answer of `GetPaymentStatus`.
  pub status_of : ℕ → PaymentStatus

pub record GatewayConfig : Type 0 where
  pub merchant_id : ℕ
  pub secret : ℕ
  pub secret_prev : ℕ

-- `VerifyWebhookHeaders`: the current secret, or the previous one while it is set.
unfoldable pub verify_webhook_headers : GatewayConfig → (merchant_id secret : ℕ) → Bool
verify_webhook_headers cfg merchant_id secret =
    if not (merchant_id == cfg.merchant_id)
    then false
    else if secret == cfg.secret
    then true
    else if not (cfg.secret_prev == 0) && (secret == cfg.secret_prev)
    then true
    else false
