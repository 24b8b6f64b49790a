-- ===== src/Billing/Checkout.antt =====
-- service.go: `InitiatePayment` and `InitiateDeviceExpansionPayment`. The return URL is the one
-- that `sanitizeReturnURL` gives.
use testmellow.Prelude.{
  ℕ, ◌+◌, ◌-◌, ◌*◌, ◌/◌, ◌&&◌, ◌||◌, not, Option, none, some, ltb, ◌==◌, if◌then◌else◌,
}
use testmellow.Prelude.Int.{ℤ, pos, pos_part, ltb_ℤ}
use testmellow.Domain.{
  PaymentStatus, SubscriptionPlan, plan_price_kopecks, device_expansion_kopecks,
  device_expansion_max_extra,
}
use testmellow.World.Rows.{Payment, DeviceExpansion, Job}
use testmellow.World.Exec.{
  Error, Result, ok, err, Exec, pure, raise, attempt, ◌>>=◌, ◌>>◌, on_option, on_result, fail_if,
  when, now, new_id, enqueue, remote, ignore,
}
use testmellow.Redis.Limits.{check_rate_limit, increment, rate_limit_key}
use testmellow.Repo.Users.{get_active_discount, clear_active_discount}
use testmellow.Repo.Payments.{get_pending_payment_by_plan, create_payment}
use testmellow.Repo.Subscriptions.{get_active_subscription}
use testmellow.Repo.Expansions.{get_active_device_expansion}
use testmellow.Economy.Accounts.{require_user}
use testmellow.Economy.Plans.{days_remaining, covers}
use testmellow.Billing.Gateway.{Gateway}

-- `clampDiscountPercent`
unfoldable pub clamp_discount_percent : ℤ → ℕ
clamp_discount_percent p =
    if ltb_ℤ p (pos 0) then 0 else if ltb_ℤ (pos 100) p then 100 else pos_part p

-- The price after the discount; the clamp keeps the reduction below the price.
unfoldable pub discounted_price : ℕ → ℕ → ℕ
discounted_price base_price percent =
    if ltb 0 percent then base_price - base_price * percent / 100 else base_price

-- "payment_init" and "initpay:devexp"
abbrev pub payment_init : ℕ
payment_init = 0

abbrev initpay_devexp : ℕ
initpay_devexp = 1

-- `GetActiveDiscount` with its error ignored.
abbrev discount_or_none : Result (ℕ × ℤ) → ℕ × ℤ
discount_or_none (ok d) = d
discount_or_none (err e) = (0, pos 0)

-- `GetPendingPaymentByPlan` where an error counts as no row.
abbrev found_row : Result (Option (ℕ × Payment)) → Option (ℕ × Payment)
found_row (ok o) = o
found_row (err e) = none

-- The payment that won the race for the unique index.
unfoldable pub recover_winner : ℕ → SubscriptionPlan → Error → Exec (ℕ × ℕ × Payment)
recover_winner user_id plan Error.unique_violation = do
  winner ← attempt (get_pending_payment_by_plan user_id plan)
  on_option (found_row winner) (raise Error.unique_violation)
      λ (id, q). pure (q.redirect_url, id, q)
recover_winner user_id plan e = raise e

-- The insert of the payment with what follows it.
unfoldable pub store_payment : ℕ → ℕ → Payment → Exec (Unit {0}) → Exec (ℕ × ℕ × Payment)
unfolding recover_winner
store_payment tx_id user_id p done = do
  stored ← attempt (create_payment tx_id p)
  on_result stored (recover_winner user_id p.plan) λ _. do done; pure (p.redirect_url, tx_id, p)

-- A 100% discount: no gateway, the payment is confirmed at once.
unfoldable pub free_payment :
    ℕ → SubscriptionPlan → (return_url discount_code : ℕ) → Exec (ℕ × ℕ × Payment)
free_payment user_id plan return_url discount_code = do
  id ← new_id
  t ← now
  let p : Payment = record {
    user_id = user_id;
    amount_kopecks = 0;
    status = PaymentStatus.confirmed;
    plan = plan;
    redirect_url = return_url;
    addon_qty = 0;
    expires_at = none;
    webhook_received_at = none;
    created_at = t;
  }
  create_payment id p
  when (not (discount_code == 0)) (ignore (clear_active_discount user_id))
  ignore (enqueue (Job.payment_process id user_id 0 PaymentStatus.confirmed))
  pure (return_url, id, p)

module _ (gateway : Gateway) where
  -- A pending payment for what the gateway answers, 30 minutes to pay it.
  unfoldable pub charge :
      ℕ → SubscriptionPlan → (price addon_qty : ℕ) → Exec (Unit {0}) → Exec (ℕ × ℕ × Payment)
  unfolding store_payment
  charge user_id plan price addon_qty done = do
    answer ← remote
    on_option (gateway.parse_uuid (gateway.transaction_of answer)) (raise Error.bad_gateway_answer)
        λ tx_id. do
          t ← now
          store_payment tx_id user_id
              (record {
                user_id = user_id;
                amount_kopecks = price;
                status = PaymentStatus.pending;
                plan = plan;
                redirect_url = gateway.redirect_of answer;
                addon_qty = addon_qty;
                expires_at = some (t + 1800);
                webhook_received_at = none;
                created_at = t;
              })
              done

  -- `InitiatePayment`: the URL to pay at, and the payment with its id.
  unfoldable pub initiate_payment : ℕ → SubscriptionPlan → ℕ → Exec (ℕ × ℕ × Payment)
  unfolding charge free_payment
  initiate_payment user_id plan return_url = do
    fail_if (plan_price_kopecks plan == 0) Error.unknown_plan
    existing ← attempt (get_pending_payment_by_plan user_id plan)
    on_option (found_row existing)
        (do
          check_rate_limit (rate_limit_key payment_init user_id) 5 3600
          require_user user_id
          found ← attempt (get_active_discount user_id)
          let discount = discount_or_none found
          let percent = clamp_discount_percent (discount.1)
          let price = discounted_price (plan_price_kopecks plan) percent
          if price == 0
              then free_payment user_id plan return_url (discount.0)
              else charge user_id plan (if ltb price 100 then 100 else price) 0 (
                  when (ltb 0 percent && not (discount.0 == 0))
                    (ignore (clear_active_discount user_id))))
        (λ (id, p). pure (p.redirect_url, id, p))

  abbrev expansion_price : ℕ → ℕ → Option DeviceExpansion → ℕ
  expansion_price qty days none = device_expansion_kopecks qty days
  expansion_price qty days (some e) =
      device_expansion_kopecks qty days - device_expansion_kopecks e.extra_devices days

  -- `cnt, _ := Incr`: 0 after an error.
  abbrev count_or_zero : Result ℕ → ℕ
  count_or_zero (ok n) = n
  count_or_zero (err e) = 0

  abbrev expansion_plan : ℕ → SubscriptionPlan
  expansion_plan qty =
      if qty == 2 then SubscriptionPlan.device_expansion_2 else SubscriptionPlan.device_expansion

  -- `InitiateDeviceExpansionPayment`
  unfoldable pub initiate_device_expansion_payment : ℕ → ℕ → Exec (ℕ × ℕ × Payment)
  unfolding charge
  initiate_device_expansion_payment user_id qty = do
    fail_if (ltb qty 1 || ltb device_expansion_max_extra qty) Error.bad_quantity
    active ← get_active_subscription user_id
    on_option active (raise Error.no_subscription) λ (sub_id, sub). do
      existing ← get_active_device_expansion user_id
      fail_if (covers qty existing) Error.expansion_active
      t ← now
      count ← attempt (increment (rate_limit_key initpay_devexp user_id) 3600)
      fail_if (ltb 5 (count_or_zero count)) Error.rate_limited
      pending ← attempt (get_pending_payment_by_plan user_id (expansion_plan qty))
      on_option (found_row pending)
          (charge user_id (expansion_plan qty)
            (expansion_price qty (days_remaining sub.expires_at t) existing) qty (pure tt))
          (λ (id, p). pure (p.redirect_url, id, p))
