-- ===== src/Billing/Webhook/Jobs.antt =====
-- What the callback of Platega puts on the worker's queue.
use testmellow.Prelude.{ℕ, ◌≡◌, true, false, some, Table, find}
use testmellow.Prelude.Int.{pos, ltb_ℤ}
use testmellow.World.Rows.{Payment, Job, Db}
use testmellow.World.Exec.{World}
use testmellow.World.Adds.{Adds}
use testmellow.Billing.Gateway.{Gateway}
use testmellow.Billing.Webhook.{Callback, abs_delta, is_final}
use testmellow.World.Keeps.{Keeps}

-- What a queued job must be: it is for the payment that the callback names, which has a row in
-- `payments`, with the user and the amount of that row, the final status of the callback, and an
-- amount of the callback that differs from that of the row by a kopeck at most.
pub record JobMatches (g : Gateway) (cb : Callback) (payments : Table Payment) (j : Job)
    : Type 0 where
  pub id : ℕ
  pub payment : Payment
  pub parsed : g.parse_uuid cb.id ≡ some id
  pub row : find id payments ≡ some payment
  pub final : is_final cb.status ≡ true
  pub close : ltb_ℤ (pos 1) (abs_delta cb.amount_kopecks (pos payment.amount_kopecks)) ≡ false
  pub is_job : j ≡ Job.payment_process id payment.user_id payment.amount_kopecks cb.status

module _ (payments : Table Payment) where
  -- The database has these payments.
  abbrev Has : Db → Type 0
  Has d = d.payments ≡ payments
