-- ===== src/Tests/Counters.antt =====
-- Runs of the counters, the locks, the tokens, the queue and the prices.
use testmellow.Prelude.{
  ℕ, ◌+◌, ◌≤◌, ◌<◌, ◌≡◌, refl, true, false, none, some, [], ◌∷◌, arith, ◌*◌, ◌==◌, if◌then◌else◌,
  ltb,
}
use testmellow.Prelude.Int.{pos, negsuc}
use testmellow.Domain.{PaymentStatus}
use testmellow.World.Exec.{Error, Outcome, err, World, remote, ok}
use testmellow.Redis.Store.{Key, Cache, get, put}
use testmellow.Redis.Limits.{increment_script, yad_key, count_in}
use testmellow.Redis.Limits.Cap.{run_credits, run_credits-capped}
use testmellow.Redis.Limits.Window.{after_calls, increment_script-counts}
use testmellow.Redis.Once.{set_nx_script, unlock_script, payout_lock_key, pay_processed_key}
use testmellow.Redis.Once.Locks.{locked, try_lock-excludes}
use testmellow.Worker.Queue.{deliver}
use testmellow.Worker.Queue.Bounds.{EndsWithin, deliver-ends}
use testmellow.Worker.Payment.{handle_payment_process}
use testmellow.Worker.Once.{handle_payment_process-duplicate, handle_payment_process-lost}
use testmellow.Billing.Checkout.{clamp_discount_percent, discounted_price}
use testmellow.Billing.Prices.{discounted_price-bounds}
use testmellow.Tests.Worlds.{shop_db, world_with, sunny, no_keys}
use testmellow.Gate.Limits.{limited, limited-window}

-- Two credits of a day: 4000 YAD, then 2000 more, which the cap refuses.
run_credits-capped_example :
    ((run_credits (yad_key 1) 5000 86400 ((20, 2000) ∷ (10, 4000) ∷ []) no_keys).0 ≤ 5000)
    × ((t : ℕ)
        → t < 86400
        → count_in (
            get t
              (yad_key 1)
              (run_credits (yad_key 1) 5000 86400 ((20, 2000) ∷ (10, 4000) ∷ []) no_keys).1)
          ≡ (run_credits (yad_key 1) 5000 86400 ((20, 2000) ∷ (10, 4000) ∷ []) no_keys).0)
unfolding get
run_credits-capped_example =
    run_credits-capped (yad_key 1) 5000 86400 ((20, 2000) ∷ (10, 4000) ∷ []) no_keys (λ t l. refl)
      (omega arith, (omega arith, tt))

abbrev second_call : Cache
second_call = after_calls (yad_key 1) 60 (20 ∷ []) (increment_script 10 (yad_key 1) 60 no_keys).1

increment_script-counts_example :
    ((increment_script 30 (yad_key 1) 60 second_call).0 ≡ 3)
    × ((increment_script 30 (yad_key 1) 60 second_call).1.entry (yad_key 1)
        ≡ some (record { value = 3; expires_at = some 70 }))
unfolding get
increment_script-counts_example =
    increment_script-counts (yad_key 1) 60 10 (20 ∷ []) no_keys 30 refl (omega arith, tt)
      (omega arith)

-- The third request of a window that allows two.
abbrev busy : World
busy = record sunny { cache = second_call; clock = 30 }

limited-window_example :
    ((n : ℕ)
      → (remote busy).0 ≡ ok n
      → (limited (yad_key 1) 2 60 busy).0 ≡ (if ltb 2 3 then err Error.rate_limited else ok tt))
    × ((e : Error) → (remote busy).0 ≡ err e → (limited (yad_key 1) 2 60 busy).0 ≡ ok tt)
unfolding get
limited-window_example =
    limited-window (yad_key 1) 2 60 10 (20 ∷ []) no_keys busy refl (omega arith, tt) (omega arith)
      refl

abbrev lock_cache : Cache
lock_cache = locked (payout_lock_key 3) 8 300 1000 no_keys

try_lock-excludes_example :
    ((set_nx_script 1000 (payout_lock_key 3) 8 300 no_keys).0 ≡ true)
    × (set_nx_script 1100 (payout_lock_key 3) 9 300 lock_cache ≡ (false, lock_cache))
    × ((unlock_script 1100 (payout_lock_key 3) 9 lock_cache).1 ≡ lock_cache)
    × (get 1100 (payout_lock_key 3) (unlock_script 1100 (payout_lock_key 3) 8 lock_cache).1 ≡ none)
unfolding get
try_lock-excludes_example =
    try_lock-excludes (payout_lock_key 3) 8 300 1000 no_keys 1100 9 refl (omega arith) (omega arith)

-- The handler fails twice.
deliver-ends_example : EndsWithin 6 62 (deliver (λ n. n == 2) 6 0 0 (some 0))
deliver-ends_example = deliver-ends (λ n. n == 2)

abbrev confirmed_key : Key
confirmed_key = pay_processed_key 7 PaymentStatus.confirmed

abbrev processed : World
processed = record sunny {
  cache = put confirmed_key (record { value = 1; expires_at = some 5000 }) no_keys;
}

handle_payment_process-duplicate_example :
    ((handle_payment_process 7 1 PaymentStatus.confirmed processed).1.db ≡ shop_db)
    × ((handle_payment_process 7 1 PaymentStatus.confirmed processed).1.queue ≡ [])
    × ((handle_payment_process 7 1 PaymentStatus.confirmed processed).1.remna ≡ [])
    × ((handle_payment_process 7 1 PaymentStatus.confirmed processed).1.cache ≡ processed.cache)
unfolding get put
handle_payment_process-duplicate_example =
    handle_payment_process-duplicate 7 1 PaymentStatus.confirmed processed
      (record { value = 1; expires_at = some 5000 }) refl

-- Redis answers, the database does not.
abbrev outage : World
outage = world_with (Outcome.done 0 ∷ Outcome.io_error ∷ [])

-- The job comes back two seconds later, when all is well again.
abbrev retried : World
retried = record sunny {
  cache = (handle_payment_process 7 1 PaymentStatus.confirmed outage).1.cache;
  clock = 1002;
}

handle_payment_process-lost_example :
    ((handle_payment_process 7 1 PaymentStatus.confirmed outage).0 ≡ err Error.db_error)
    × ((handle_payment_process 7 1 PaymentStatus.confirmed outage).1.db ≡ shop_db)
    × ((handle_payment_process 7 1 PaymentStatus.confirmed retried).1.db ≡ shop_db)
    × ((handle_payment_process 7 1 PaymentStatus.confirmed retried).1.queue ≡ [])
unfolding get
handle_payment_process-lost_example =
    handle_payment_process-lost 7 1 PaymentStatus.confirmed outage retried 0 [] refl refl refl
      (omega arith)

discounted_price-bounds_example :
    (15 ≤ 100
      → (discounted_price 10000 (clamp_discount_percent (pos 15)) ≤ 10000)
        × (100 * 10000
            ≤ 100 * discounted_price 10000 (clamp_discount_percent (pos 15)) + 10000 * 15)
        × (100 * discounted_price 10000 (clamp_discount_percent (pos 15)) + 10000 * 15
            < 100 * 10000 + 100))
    × (100 ≤ 15 → discounted_price 10000 (clamp_discount_percent (pos 15)) ≡ 0)
    × (discounted_price 10000 (clamp_discount_percent (negsuc 15)) ≡ 10000)
discounted_price-bounds_example = discounted_price-bounds 10000 15
