-- ===== src/Worker/Once.antt =====
-- worker.go, `handlePaymentProcess`: the idempotency key.
use testmellow.Prelude.{ℕ, ◌+◌, ◌<◌, ◌≡◌, none, some, List, ◌∷◌, arith}
use testmellow.Domain.{PaymentStatus}
use testmellow.World.Exec.{Error, Outcome, err, World, ◌>>=◌, remote, query}
use testmellow.Redis.Store.{Entry, get, get-put, key_eq_refl}
use testmellow.Redis.Limits.{script}
use testmellow.Redis.Once.{pay_processed_key, set_nx, set_nx_script}
use testmellow.Repo.Payments.{get_payment_by_id}
use testmellow.Worker.Payment.{handle_payment_process}

module _ (tx id : ℕ) (s : PaymentStatus) where
  -- A payment job whose transaction and status are marked as processed changes neither the
  -- database, nor the queue, nor the panel, nor Redis.
  pub handle_payment_process-duplicate :
      (w : World) (e : Entry)
      → get w.clock (pay_processed_key tx s) w.cache ≡ some e
      → ((handle_payment_process tx id s w).1.db ≡ w.db)
        × ((handle_payment_process tx id s w).1.queue ≡ w.queue)
        × ((handle_payment_process tx id s w).1.remna ≡ w.remna)
        × ((handle_payment_process tx id s w).1.cache ≡ w.cache)
  unfolding handle_payment_process set_nx set_nx_script script ◌>>=◌ remote
  handle_payment_process-duplicate w e h = ground arith

  -- A payment job that finds the key free, and then fails to read the payment from the database,
  -- returns the error with the key set: until the key expires, the job is skipped when it is
  -- queued again, so the payment stays as it is.
  pub handle_payment_process-lost :
      (w w' : World) (n : ℕ) (rest : List Outcome)
      → get w.clock (pay_processed_key tx s) w.cache ≡ none
      → w.outcomes ≡ Outcome.done n ∷ Outcome.io_error ∷ rest
      → w'.cache ≡ (handle_payment_process tx id s w).1.cache
      → w'.clock < w.clock + 172800
      → ((handle_payment_process tx id s w).0 ≡ err Error.db_error)
        × ((handle_payment_process tx id s w).1.db ≡ w.db)
        × ((handle_payment_process tx id s w').1.db ≡ w'.db)
        × ((handle_payment_process tx id s w').1.queue ≡ w'.queue)
  unfolding handle_payment_process set_nx set_nx_script script ◌>>=◌ remote get_payment_by_id query
  handle_payment_process-lost w w' n rest free out same l = ground (
    arith,
    key_eq_refl (pay_processed_key tx s),
    get-put w'.clock (pay_processed_key tx s) (pay_processed_key tx s)
        (record { value = 1; expires_at = some (w.clock + 172800) }) w.cache,
  )
