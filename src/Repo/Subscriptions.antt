-- ===== src/Repo/Subscriptions.antt =====
-- user_repo.go: subscriptions. One clock value stands for `NOW()` and `time.Now()` in one call.
pub mod Days
use testmellow.Prelude.{
  ℕ, ◌+◌, ◌-◌, ◌*◌, Bool, true, false, ◌&&◌, Option, none, some, List, [], ◌∷◌, max, ltb, leb, ◌==◌,
  if◌then◌else◌, Table, find, update, update_where, rows_where, exists,
}
use testmellow.Domain.{SubscriptionPlan, SubscriptionStatus}
use testmellow.World.Rows.{Db, Subscription}
use testmellow.World.Exec.{
  Error, Exec, pure, raise, ◌>>=◌, ◌>>◌, on_option, fail_if, query, modify_db, execute, now,
}

-- The seconds of a day.
abbrev pub day : ℕ
day = 86400

abbrev pub map_subscription : ℕ → (Subscription → Subscription) → Db → Db
map_subscription id f d = record d { subscriptions = update id f d.subscriptions }

abbrev pub later_of : ℕ × Subscription → Option (ℕ × Subscription) → Option (ℕ × Subscription)
later_of r none = some r
later_of (k, s) (some (j, t)) = if leb t.expires_at s.expires_at then some (k, s) else some (j, t)

-- `ORDER BY expires_at DESC LIMIT 1`
unfoldable pub latest : Table Subscription → Option (ℕ × Subscription)
latest [] = none
latest (r ∷ t) = later_of r (latest t)

abbrev pub of_user : ℕ → Db → Table Subscription
of_user user_id d = rows_where (λ s. s.user_id == user_id) d.subscriptions

-- `LockLatestSubscriptionForUpdate`
unfoldable pub lock_latest_subscription : ℕ → Exec (Option (ℕ × Subscription))
lock_latest_subscription user_id = query (λ d. latest (of_user user_id d))

-- `status IN ('active','trial')`
abbrev pub is_current : SubscriptionStatus → Bool
is_current SubscriptionStatus.active = true
is_current SubscriptionStatus.trial = true
is_current s = false

unfoldable pub get_active_subscription : ℕ → Exec (Option (ℕ × Subscription))
get_active_subscription user_id = do
  t ← now
  query λ d. latest (
      rows_where (λ s. (s.user_id == user_id) && is_current s.status && ltb t s.expires_at)
        d.subscriptions)

unfoldable pub create_subscription : ℕ → Subscription → Exec (Unit {0})
create_subscription id s = execute (λ d. record d { subscriptions = (id, s) ∷ d.subscriptions })

-- `ExtendSubscriptionByDuration`: `GREATEST(expires_at, NOW())` plus the days.
unfoldable pub extend_subscription_by_duration : ℕ → ℕ → SubscriptionPlan → Exec ℕ
extend_subscription_by_duration sub_id add_days plan = do
  t ← now
  row ← query (λ d. find sub_id d.subscriptions)
  on_option row (raise Error.db_error) λ s. do
    let expiry = max s.expires_at t + add_days * day
    modify_db (
        map_subscription sub_id
          (λ s. record s { expires_at = expiry; plan = plan; status = SubscriptionStatus.active }))
    pure expiry

-- `ContractSubscriptionByDuration`: the new expiry, and whether it has passed.
unfoldable pub contract_subscription_by_duration : ℕ → ℕ → Exec (ℕ × Bool)
contract_subscription_by_duration sub_id add_days = do
  t ← now
  row ← query (λ d. find sub_id d.subscriptions)
  on_option row (raise Error.db_error) λ s. do
    fail_if (ltb s.expires_at (add_days * day)) Error.out_of_range
    let expiry = s.expires_at - add_days * day
    modify_db (
        map_subscription sub_id (λ s. record s {
          expires_at = expiry;
          status = if leb expiry t then SubscriptionStatus.reverted else s.status;
        }))
    pure (expiry, leb expiry t)

-- `UpdateExpiredSubscriptions`
unfoldable pub update_expired_subscriptions : Exec (Unit {0})
update_expired_subscriptions = do
  t ← now
  execute λ d. record d {
    subscriptions =
        update_where (λ s. is_current s.status && leb s.expires_at t)
          (λ s. record s { status = SubscriptionStatus.expired }) d.subscriptions;
  }

unfoldable pub update_subscription_remna : ℕ → ℕ → Exec (Unit {0})
update_subscription_remna sub_id remna_uuid =
    execute (map_subscription sub_id (λ s. record s { remna_sub_uuid = some remna_uuid }))

-- `GetExpiredSubscriptionUserIDs`: `SELECT DISTINCT user_id`.
distinct_users : Table Subscription → List ℕ
distinct_users [] = []
distinct_users ((k, s) ∷ t) =
    let rest = distinct_users t in
    if exists (λ id. id == s.user_id) rest then rest else s.user_id ∷ rest

unfoldable pub get_expired_subscription_user_ids : Exec (List ℕ)
unfolding distinct_users
get_expired_subscription_user_ids = do
  t ← now
  query λ d.
      distinct_users (rows_where (λ s. is_current s.status && leb s.expires_at t) d.subscriptions)

-- `GetSubscriptionByID`
unfoldable pub get_subscription_by_id : ℕ → Exec (Option Subscription)
get_subscription_by_id sub_id = query (λ d. find sub_id d.subscriptions)

-- admin_repo.go: `SetSubscriptionStatus`
unfoldable pub set_status : ℕ → SubscriptionStatus → Exec (Unit {0})
set_status sub_id status = execute (map_subscription sub_id (λ s. record s { status = status }))

-- `CASE WHEN status IN ('expired','canceled') THEN 'active' ELSE status END`
abbrev pub reactivated : SubscriptionStatus → SubscriptionStatus
reactivated SubscriptionStatus.expired = SubscriptionStatus.active
reactivated SubscriptionStatus.canceled = SubscriptionStatus.active
reactivated s = s

-- admin_repo.go: `ExtendSubscriptionByDays`
unfoldable pub extend_subscription_by_days : ℕ → ℕ → Exec Subscription
extend_subscription_by_days sub_id days = do
  t ← now
  row ← query (λ d. find sub_id d.subscriptions)
  on_option row (raise Error.db_error) λ s. do
    let extended = record s {
      expires_at = max s.expires_at t + days * day;
      status = reactivated s.status;
    }
    modify_db (map_subscription sub_id (λ _. extended))
    pure extended
