-- ===== src/Billing/Status.antt =====
-- service.go: `TouchPayment`, `GetPaymentByID`, `CheckPaymentStatus`; worker.go: `syncStalePayments`
-- and the expiry sweep, which bring a missed confirmation to the worker's queue.
use testmellow.Prelude.{ℕ, Bool, false, not, if◌then◌else◌}
use testmellow.Domain.{PaymentStatus, payment_status_eq, is_valid_payment_status}
use testmellow.World.Rows.{Payment, Job}
use testmellow.World.Exec.{
  Error, Result, ok, err, Exec, pure, raise, attempt, ◌>>=◌, ◌>>◌, on_option, on_result, when, now,
  enqueue, remote, ignore, for_each,
}
use testmellow.Redis.Once.{set_nx, delete_key, sync_key}
use testmellow.Repo.Payments.{
  get_user_payment_by_id, touch_payment, update_payment_status, is_pending,
  get_stale_pending_payments, mark_expired_payments,
}
use testmellow.Economy.Accounts.{is_before}
use testmellow.Billing.Gateway.{Gateway}

-- `GetPaymentByID` of the service.
unfoldable pub get_own_payment : ℕ → ℕ → Exec Payment
get_own_payment user_id payment_id = do
  row ← get_user_payment_by_id user_id payment_id
  on_option row (raise Error.payment_not_found) pure

-- `TouchPayment` of the service: both branches read the payment again.
unfoldable pub touch : ℕ → ℕ → Exec Payment
unfolding get_own_payment
touch user_id payment_id = do touch_payment user_id payment_id; get_own_payment user_id payment_id

-- What both checks do with a status of the gateway: unknown or unchanged statuses are ignored, and a
-- confirmed payment goes to the worker with the amount of the database.
unfoldable pub adopt_status : ℕ → Payment → PaymentStatus → Exec Payment
adopt_status payment_id p new_status =
    if not (is_valid_payment_status new_status)
    then pure p
    else if payment_status_eq new_status p.status
    then pure p
    else (do
      ignore (update_payment_status payment_id new_status)
      when (payment_status_eq new_status PaymentStatus.confirmed)
          (ignore (enqueue (Job.payment_process payment_id p.user_id p.amount_kopecks new_status)))
      pure (record p { status = new_status }))

module _ (gateway : Gateway) where
  -- `CheckPaymentStatus`
  unfoldable pub check_payment_status : ℕ → ℕ → Exec Payment
  unfolding get_own_payment adopt_status
  check_payment_status user_id payment_id = do
    p ← get_own_payment user_id payment_id
    t ← now
    if not (is_pending p)
        then pure p
        else if is_before p.expires_at t
        then (do
          ignore (update_payment_status payment_id PaymentStatus.expired)
          pure (record p { status = PaymentStatus.expired }))
        else (do
          answer ← attempt remote
          on_result answer (λ _. pure p) λ n. adopt_status payment_id p (gateway.status_of n))

  -- `ok, _ := SetNX`: an error counts as taken.
  abbrev flag_or_false : Result Bool → Bool
  flag_or_false (ok b) = b
  flag_or_false (err e) = false

  -- One payment of `syncStalePayments`.
  unfoldable pub sync_payment : ℕ × Payment → Exec (Unit {0})
  unfolding adopt_status
  sync_payment (payment_id, p) = do
    fresh ← attempt (set_nx (sync_key payment_id) 1 300)
    if not (flag_or_false fresh) then pure tt else do
      answer ← attempt remote
      on_result answer (λ _. ignore (delete_key (sync_key payment_id)))
          λ n. do adopt_status payment_id p (gateway.status_of n); pure tt

  -- `syncStalePayments`
  unfoldable pub sync_stale_payments : Exec (Unit {0})
  unfolding sync_payment
  sync_stale_payments = do
    rows ← attempt get_stale_pending_payments
    on_result rows (λ _. pure tt) λ ps. for_each ps sync_payment

  -- One tick of `periodicPaymentExpirySweep`.
  unfoldable pub sweep_payments : Exec (Unit {0})
  unfolding sync_stale_payments
  sweep_payments = do sync_stale_payments; ignore mark_expired_payments
