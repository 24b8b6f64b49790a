-- ===== src/Billing/Webhook/Headers.antt =====
-- The headers of a callback of Platega: what is done with the right ones and the wrong ones.
use testmellow.Prelude.{
  ℕ, ◌≡◌, ◌≢◌, ◌↔◌, ◌⊎◌, refl, Bool, true, Option, some, [], ◌∷◌, arith, not, Bool-cases, inl, inr,
  exists, Table, subst, sym, if◌then◌else◌,
}
use testmellow.Domain.{PaymentStatus, payment_status_eq}
use testmellow.World.Rows.{Db, WebhookEvent, Payment}
use testmellow.World.Exec.{
  Exec, ok, World, pure, ◌>>=◌, on_option, remote, attempt, query, modify_db, Result,
}
use testmellow.World.Bind.{bind-continues}
use testmellow.World.Keeps.{Keeps, keeps_rules, Keeps-execute, Keeps-if, Keeps-pure}
use testmellow.Repo.Payments.{
  get_payment_by_id, ensure_webhook_event, mark_webhook_processed, mark_event, same_event,
}
use testmellow.Billing.Gateway.{Gateway, GatewayConfig, verify_webhook_headers}
use testmellow.Billing.Webhook.{Callback, handle, process_event, enqueue_payment, is_first}
use testmellow.Worker.Balance.{set_nx-Keeps}

-- The merchant is the configured one and the secret is the current one, or the previous one where
-- that is set (is not the empty text).
abbrev pub Accepted : GatewayConfig → (merchant_id secret : ℕ) → Type 0
Accepted cfg merchant_id secret =
    (merchant_id ≡ cfg.merchant_id)
    × ((secret ≡ cfg.secret) ⊎ ((cfg.secret_prev ≢ 0) × (secret ≡ cfg.secret_prev)))

verify_webhook_headers_iff :
    (cfg : GatewayConfig) (m s : ℕ) → (verify_webhook_headers cfg m s ≡ true) ↔ Accepted cfg m s
unfolding verify_webhook_headers
verify_webhook_headers_iff cfg m s = (λ h. ground arith, λ h. ground arith)

same_status : (s : PaymentStatus) → payment_status_eq s s ≡ true
unfolding payment_status_eq
same_status s = ground arith

module _ (id : ℕ) (s : PaymentStatus) where
  -- The event is on record.
  abbrev IsRecorded : Db → Type 0
  IsRecorded d = exists (same_event id s) d.webhook_events ≡ true

  exists-mark_event :
      (t : Table WebhookEvent)
      → exists (same_event id s) t ≡ true
      → exists (same_event id s) (mark_event id s t) ≡ true
  unfolding mark_event
  exists-mark_event [] h = h
  exists-mark_event ((k, e) ∷ t) h = ground (arith, h, exists-mark_event t)

  mark-IsRecorded : Keeps IsRecorded (mark_webhook_processed id s)
  unfolding mark_webhook_processed
  mark-IsRecorded = Keeps-execute _ (λ d h. exists-mark_event d.webhook_events h)

  ensure-IsRecorded :
      (w : World) (n : ℕ) → (remote w).0 ≡ ok n → IsRecorded (ensure_webhook_event id s w).1.db
  unfolding ensure_webhook_event query modify_db ◌>>=◌ remote pure
  ensure-IsRecorded w n r =
      let same = same_status s in
      elim (Bool-cases (exists (same_event id s) w.db.webhook_events)) [
        | inl y ↦ ground (arith, r, y)
        | inr y ↦ ground (arith, r, y, same)
      ]

module _ (g : Gateway) (cb : Callback) where
  mark_callback : Keeps (IsRecorded cb.id cb.status) (mark_webhook_processed cb.id cb.status)
  mark_callback = mark-IsRecorded cb.id cb.status

  get_payment-IsRecorded : (id : ℕ) → Keeps (IsRecorded cb.id cb.status) (get_payment_by_id id)
  unfolding get_payment_by_id
  get_payment-IsRecorded id = search keeps_rules

  enqueue_payment-IsRecorded :
      (id : ℕ) (p : Payment) → Keeps (IsRecorded cb.id cb.status) (enqueue_payment cb id p)
  unfolding enqueue_payment
  enqueue_payment-IsRecorded id p = search (keeps_rules, mark_callback, set_nx-Keeps) depth 20

  process_event-IsRecorded : Keeps (IsRecorded cb.id cb.status) (process_event g cb)
  unfolding process_event
  process_event-IsRecorded =
      search (keeps_rules, mark_callback, get_payment-IsRecorded, enqueue_payment-IsRecorded) depth
        20

  -- After the headers.
  abbrev accepted : Exec (Unit {0})
  accepted = do
    is_new ← attempt (ensure_webhook_event cb.id cb.status)
    if not (is_first is_new) then pure tt else process_event g cb

  accepted-IsRecorded :
      (w : World) (n : ℕ) → (remote w).0 ≡ ok n → IsRecorded cb.id cb.status (accepted w).1.db
  unfolding attempt
  accepted-IsRecorded w n r =
      let ensure = ensure_webhook_event cb.id cb.status in
      let rest =
        λ (is_new : Result Bool). if not (is_first is_new) then pure tt else process_event g cb in
      let e = bind-continues (attempt ensure) rest w (ensure w).0 refl in
      let k =
        Keeps-if (not (is_first (ensure w).0)) (pure tt) (process_event g cb) (λ _. Keeps-pure tt)
          (λ _. process_event-IsRecorded) in
      subst (λ (x : Result (Unit {0}) × World). IsRecorded cb.id cb.status x.1.db) (sym e)
        (k.at (ensure w).1 (ensure-IsRecorded cb.id cb.status w n r))

-- The headers decide. A callback whose header does not name the configured merchant, or whose secret
-- is neither the current one nor the previous one (which counts only where it is set, is not the
-- empty text), changes nothing at all, whatever its body. A callback with the right ones is on record
-- afterwards, if the first call of the database is answered, whatever fails then.
pub handle-headers :
    (g : Gateway) (cfg : GatewayConfig) (m s : ℕ) (body : Option Callback) (cb : Callback)
    (w : World)
    → (¬ Accepted cfg m s → handle g cfg m s body w ≡ (ok tt, w))
      × (Accepted cfg m s
          → (n : ℕ) → (remote w).0 ≡ ok n
          → exists (same_event cb.id cb.status) (handle g cfg m s (some cb) w).1.db.webhook_events
            ≡ true)
unfolding handle pure on_option
handle-headers g cfg m s body cb w = (
  λ h. elim (Bool-cases (verify_webhook_headers cfg m s)) [
    | inl v ↦ absurd (h ((verify_webhook_headers_iff cfg m s).0 v))
    | inr v ↦ rw v refl
  ],
  λ h n r. rw ((verify_webhook_headers_iff cfg m s).1 h) (accepted-IsRecorded g cb w n r),
)
