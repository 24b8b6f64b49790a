-- ===== src/Admin.antt =====
-- internal/handler/admin/admin.go, admin_extended.go: the operations of an administrator on users,
-- payments and subscriptions. The rows of the audit log are not in the model: an entry is one call,
-- whose failure is only logged.
pub mod Balance
pub mod Bans
pub mod Catalog
use testmellow.Prelude.{
  ℕ, ◌+◌, ◌*◌, ◌<◌, Bool, true, false, ◌&&◌, ◌||◌, not, Option, none, some, ltb, ◌==◌,
  if◌then◌else◌,
}
use testmellow.Prelude.Int.{ℤ, pos, neg, leb_ℤ}
use testmellow.Domain.{
  PaymentStatus, SubscriptionPlan, SubscriptionStatus, YadTxType, payment_status_eq,
  is_valid_payment_status, plan_duration_days,
}
use testmellow.World.Rows.{User, Subscription, Job, RemnaCall}
use testmellow.World.Exec.{
  Error, Result, ok, err, Exec, pure, raise, attempt, ◌>>=◌, ◌>>◌, on_option, on_result, fail_if,
  when, now, new_id, remote, remna, transaction, ignore, retry, enqueue,
}
use testmellow.Remnawave.{text_or_empty, is_blank}
use testmellow.Redis.Sessions.{set_ban_key}
use testmellow.Repo.Users.{get_by_id, lock_user_for_update, adjust_yad_balance}
use testmellow.Repo.Accounts.{get_by_username}
use testmellow.Repo.Profiles.{update_ban_status, update_risk_score}
use testmellow.Repo.Payments.{get_payment_by_id, update_payment_status, is_pending}
use testmellow.Repo.Subscriptions.{
  day, lock_latest_subscription, create_subscription, extend_subscription_by_duration,
  get_subscription_by_id, set_status, extend_subscription_by_days, is_current,
}
use testmellow.Economy.Accounts.{is_before}
use testmellow.Economy.Plans.{sync_purchase}
use testmellow.Billing.Gateway.{Gateway}

unfoldable pub audit : Exec (Unit {0})
audit = ignore remote

-- The bindings `required,min=-1000000,max=1000000` and, for the note, `min=3,max=255`.
abbrev pub valid_adjustment : ℤ → (note_length : ℕ) → Bool
valid_adjustment delta note_length =
    not (leb_ℤ delta (pos 0) && leb_ℤ (pos 0) delta)
    && leb_ℤ (neg (pos 1000000)) delta
    && leb_ℤ delta (pos 1000000)
    && not (ltb note_length 3)
    && not (ltb 255 note_length)

-- `AdjustUserYAD`, and `AdjustYAD`, which has the user in the body of the request.
unfoldable pub adjust_user_yad : ℕ → ℤ → (note_length : ℕ) → Exec (Unit {0})
adjust_user_yad user_id delta note_length = do
  fail_if (not (valid_adjustment delta note_length)) Error.invalid_request
  transaction (adjust_yad_balance user_id delta YadTxType.admin_adjust none)
  audit

-- `BanUser` and `UnbanUser`
unfoldable pub ban_user : ℕ → Exec (Unit {0})
unfolding audit
ban_user user_id = do update_ban_status user_id true; ignore (set_ban_key user_id true); audit

unfoldable pub unban_user : ℕ → Exec (Unit {0})
unfolding audit
unban_user user_id = do update_ban_status user_id false; ignore (set_ban_key user_id false); audit

-- `SetRiskScore`: `required` refuses the score 0.
unfoldable pub set_risk_score : ℕ → ℤ → Exec (Unit {0})
unfolding audit
set_risk_score user_id score = do
  fail_if (leb_ℤ score (pos 0) || not (leb_ℤ score (pos 100))) Error.invalid_request
  update_risk_score user_id score
  audit

-- `UpdatePaymentStatus` under the CHECK on the column.
abbrev store_status : ℕ → PaymentStatus → Exec (Unit {0})
store_status payment_id status = do
  fail_if (not (is_valid_payment_status status)) Error.db_error
  update_payment_status payment_id status

-- `err != nil || x == nil`
abbrev pub row_or_none : {A : Type 0} → Result (Option A) → Option A
row_or_none (ok row) = row
row_or_none (err e) = none

-- `CheckPaymentStatus` of the administrator, with the status of its answer.
unfoldable pub check_payment : Gateway → ℕ → Exec PaymentStatus
unfolding audit
check_payment gateway payment_id = do
  row ← attempt (get_payment_by_id payment_id)
  on_option (row_or_none row) (raise Error.payment_not_found) λ p. do
    t ← now
    if not (is_pending p) || is_before p.expires_at t then (do audit; pure p.status) else do
      answer ← attempt remote
      on_result answer (λ _. pure p.status)
          λ n. do
            let status = gateway.status_of n
            when (not (payment_status_eq status p.status)) (ignore (store_status payment_id status))
            when (payment_status_eq status PaymentStatus.confirmed) (
                ignore (enqueue (Job.payment_process payment_id p.user_id p.amount_kopecks status)))
            audit
            pure status

-- `assignSubInTx`: the new expiry.
unfoldable pub assign_sub_in_tx : (user_id : ℕ) → SubscriptionPlan → (days now : ℕ) → Exec ℕ
assign_sub_in_tx user_id plan days now = transaction do
  lock_user_for_update user_id
  existing ← lock_latest_subscription user_id
  on_option existing
      (do
        id ← new_id
        create_subscription id (record {
          user_id = user_id;
          plan = plan;
          status = SubscriptionStatus.active;
          starts_at = now;
          expires_at = now + days * day;
          remna_sub_uuid = none;
          paid_kopecks = 0;
          payment_id = none;
        })
        pure (now + days * day))
      (λ (existing_id, sub). extend_subscription_by_duration existing_id days plan)

-- `oneof=1week 1month 3months 99years`
abbrev assignable : SubscriptionPlan → Bool
assignable SubscriptionPlan.week = true
assignable SubscriptionPlan.month = true
assignable SubscriptionPlan.three_month = true
assignable SubscriptionPlan.ninety_nine_years = true
assignable plan = false

-- `AssignSubscription`: the panel is brought up to date after the commit, as for a purchase.
unfoldable pub assign_subscription : (login : ℕ) → SubscriptionPlan → Exec ℕ
unfolding assign_sub_in_tx audit
assign_subscription login plan = do
  fail_if ((login == 0) || not (assignable plan)) Error.invalid_request
  row ← attempt (get_by_username login)
  on_option (row_or_none row) (raise Error.user_not_found) λ (user_id, u). do
    fail_if (plan_duration_days plan == 0) Error.unknown_plan
    t ← now
    expiry ← retry 2 (assign_sub_in_tx user_id plan (plan_duration_days plan) t)
    sync_purchase user_id u expiry
    audit
    pure expiry

abbrev panel_account : Option User → Option ℕ
panel_account none = none
panel_account (some u) = if is_blank u.remna_user_uuid then none else u.remna_user_uuid

-- The panel follows the new status.
abbrev follow_status : Subscription → SubscriptionStatus → ℕ → Exec (Unit {0})
follow_status sub status uuid =
    if is_current status
    then (do
      ignore (remna (RemnaCall.update_expiry uuid sub.expires_at))
      ignore (remna (RemnaCall.enable_user uuid)))
    else ignore (remna (RemnaCall.disable_user uuid))

-- `oneof=active expired canceled`
abbrev settable : SubscriptionStatus → Bool
settable SubscriptionStatus.active = true
settable SubscriptionStatus.expired = true
settable SubscriptionStatus.canceled = true
settable status = false

-- `SetSubscriptionStatus`
unfoldable pub set_subscription_status : ℕ → SubscriptionStatus → Exec (Unit {0})
unfolding audit
set_subscription_status sub_id status = do
  fail_if (not (settable status)) Error.invalid_request
  row ← get_subscription_by_id sub_id
  on_option row (raise Error.no_subscription) λ sub. do
    set_status sub_id status
    owner ← attempt (get_by_id sub.user_id)
    on_option (panel_account (row_or_none owner)) (pure tt) (follow_status sub status)
    audit

-- `ExtendSubscription`: the panel is not told.
unfoldable pub extend_subscription : (sub_id days : ℕ) → Exec Subscription
unfolding audit
extend_subscription sub_id days = do
  fail_if ((days == 0) || ltb 3650 days) Error.invalid_request
  sub ← extend_subscription_by_days sub_id days
  audit
  pure sub
