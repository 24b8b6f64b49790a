-- ===== src/Repo/Payments.antt =====
-- user_repo.go: payments and webhook events.
use testmellow.Prelude.{
  ℕ, ◌+◌, Bool, true, false, ◌&&◌, ◌||◌, Option, none, some, [], ◌∷◌, ltb, leb, ◌==◌, if◌then◌else◌,
  is_some, Table, find, update, update_where, rows_where, exists, take,
}
use testmellow.Domain.{PaymentStatus, SubscriptionPlan, plan_eq, payment_status_eq}
use testmellow.World.Rows.{Db, Payment, WebhookEvent}
use testmellow.World.Exec.{Error, Exec, pure, ◌>>=◌, ◌>>◌, fail_if, query, modify_db, execute, now}

abbrev pub map_payment : ℕ → (Payment → Payment) → Db → Db
map_payment id f d = record d { payments = update id f d.payments }

abbrev pub is_pending : Payment → Bool
is_pending p = payment_status_eq p.status PaymentStatus.pending

unfoldable pub get_payment_by_id : ℕ → Exec (Option Payment)
get_payment_by_id id = query (λ d. find id d.payments)

abbrev owned_by : ℕ → Option Payment → Option Payment
owned_by user_id none = none
owned_by user_id (some p) = if p.user_id == user_id then some p else none

unfoldable pub get_user_payment_by_id : ℕ → ℕ → Exec (Option Payment)
get_user_payment_by_id user_id payment_id =
    query (λ d. owned_by user_id (find payment_id d.payments))

-- `expires_at IS NULL OR expires_at > NOW()`
abbrev pub not_expired : ℕ → Option ℕ → Bool
not_expired t none = true
not_expired t (some e) = ltb t e

abbrev newer_of : ℕ × Payment → Option (ℕ × Payment) → Option (ℕ × Payment)
newer_of r none = some r
newer_of (k, p) (some (j, q)) = if leb q.created_at p.created_at then some (k, p) else some (j, q)

-- `ORDER BY created_at DESC LIMIT 1`
newest : Table Payment → Option (ℕ × Payment)
newest [] = none
newest (r ∷ t) = newer_of r (newest t)

unfoldable pub get_pending_payment_by_plan : ℕ → SubscriptionPlan → Exec (Option (ℕ × Payment))
unfolding newest
get_pending_payment_by_plan user_id plan = do
  t ← now
  query λ d. newest (
      rows_where
        (λ p.
          (p.user_id == user_id)
          && plan_eq p.plan plan
          && is_pending p
          && not_expired t p.expires_at)
        d.payments)

-- The partial unique index `payments_pending_user_plan_uq`.
abbrev pub clashes : Payment → ℕ × Payment → Bool
clashes p (k, q) = is_pending p && is_pending q && (p.user_id == q.user_id) && plan_eq p.plan q.plan

-- `CreatePayment`, which the primary key and the partial unique index may refuse.
unfoldable pub create_payment : ℕ → Payment → Exec (Unit {0})
create_payment id p = do
  taken ← query (λ d. is_some (find id d.payments) || exists (clashes p) d.payments)
  fail_if taken Error.unique_violation
  modify_db (λ d. record d { payments = (id, p) ∷ d.payments })

unfoldable pub update_payment_status : ℕ → PaymentStatus → Exec (Unit {0})
update_payment_status id status = do
  t ← now
  execute (map_payment id (λ p. record p { status = status; webhook_received_at = some t }))

abbrev touchable : ℕ → Option Payment → Bool
touchable user_id none = false
touchable user_id (some p) = (p.user_id == user_id) && is_pending p

-- `TouchPayment`: 30 minutes more, for the owner of a pending payment.
unfoldable pub touch_payment : ℕ → ℕ → Exec Bool
touch_payment user_id payment_id = do
  t ← now
  row ← query (λ d. find payment_id d.payments)
  if touchable user_id row
      then (do
        modify_db (map_payment payment_id (λ p. record p { expires_at = some (t + 1800) }))
        pure true)
      else pure false

-- `expires_at IS NOT NULL AND expires_at <= t`
abbrev pub due : ℕ → Option ℕ → Bool
due t none = false
due t (some e) = leb e t

unfoldable pub mark_expired_payments : Exec (Unit {0})
mark_expired_payments = do
  t ← now
  execute λ d. record d {
    payments =
        update_where (λ p. is_pending p && due t p.expires_at)
          (λ p. record p { status = PaymentStatus.expired }) d.payments;
  }

-- `EnsureWebhookEvent`, for the source "platega": whether the event is new.
abbrev pub same_event : ℕ → PaymentStatus → ℕ × WebhookEvent → Bool
same_event external_id event_type (k, e) =
    (k == external_id) && payment_status_eq e.event_type event_type

unfoldable pub ensure_webhook_event : ℕ → PaymentStatus → Exec Bool
ensure_webhook_event external_id event_type = do
  seen ← query (λ d. exists (same_event external_id event_type) d.webhook_events)
  if seen then pure false else do
    modify_db (λ d. record d {
      webhook_events =
          (external_id, record { event_type = event_type; processed = false }) ∷ d.webhook_events;
    })
    pure true

unfoldable pub mark_event : ℕ → PaymentStatus → Table WebhookEvent → Table WebhookEvent
mark_event id s [] = []
mark_event id s (r ∷ t) =
    (r.0, if same_event id s r then record (r.1) { processed = true } else r.1) ∷ mark_event id s t

unfoldable pub mark_webhook_processed : ℕ → PaymentStatus → Exec (Unit {0})
unfolding mark_event
mark_webhook_processed id s =
    execute (λ d. record d { webhook_events = mark_event id s d.webhook_events })

abbrev expiry_or_zero : Option ℕ → ℕ
expiry_or_zero none = 0
expiry_or_zero (some e) = e

-- `ORDER BY expires_at ASC`: a row goes before the later ones.
abbrev expires_before : ℕ × Payment → ℕ × Payment → Bool
expires_before (k, p) (j, q) = leb (expiry_or_zero p.expires_at) (expiry_or_zero q.expires_at)

insert_by_expiry : ℕ × Payment → Table Payment → Table Payment
insert_by_expiry r [] = r ∷ []
insert_by_expiry r (s ∷ t) =
    let rest = insert_by_expiry r t in if expires_before r s then r ∷ s ∷ t else s ∷ rest

unfoldable pub by_expiry : Table Payment → Table Payment
unfolding insert_by_expiry
by_expiry [] = []
by_expiry (r ∷ t) = insert_by_expiry r (by_expiry t)

-- `GetStalePendingPayments`: pending payments that expire within 5 minutes, at most 100.
unfoldable pub get_stale_pending_payments : Exec (Table Payment)
unfolding by_expiry
get_stale_pending_payments = do
  t ← now
  query λ d.
      take 100 (by_expiry (rows_where (λ p. is_pending p && due (t + 300) p.expires_at) d.payments))
