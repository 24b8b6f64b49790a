-- ===== src/Repo/Subscriptions/Days.antt =====
-- Extending and contracting a subscription.
use testmellow.Prelude.{
  ℕ, ◌+◌, ◌-◌, ◌*◌, ◌≤◌, ◌<◌, ◌≡◌, Bool, false, Option, none, some, arith, max, leb, find,
  find-update, update, if◌then◌else◌, eq_refl,
}
use testmellow.Domain.{SubscriptionPlan, SubscriptionStatus}
use testmellow.World.Rows.{Subscription}
use testmellow.World.Exec.{ok, World, ◌>>=◌, query, modify_db, on_option, fail_if, remote, now}
use testmellow.Repo.Subscriptions.{
  day, extend_subscription_by_duration, contract_subscription_by_duration,
}

abbrev pub expiry_of : Option Subscription → Option ℕ
expiry_of none = none
expiry_of (some s) = some s.expires_at

extend_ok :
    (id days : ℕ) (plan : SubscriptionPlan) (w : World) (s : Subscription) (e : ℕ)
    → find id w.db.subscriptions ≡ some s
    → (extend_subscription_by_duration id days plan w).0 ≡ ok e
    → (e ≡ max s.expires_at w.clock + days * day)
      × ((extend_subscription_by_duration id days plan w).1.clock ≡ w.clock)
      × ((extend_subscription_by_duration id days plan w).1.db.subscriptions
          ≡ update id
              (λ s. record s { expires_at = e; plan = plan; status = SubscriptionStatus.active })
              w.db.subscriptions)
unfolding extend_subscription_by_duration ◌>>=◌ query modify_db on_option now remote
extend_ok id days plan w s e f h = ground arith

extended :
    (id days : ℕ) (plan : SubscriptionPlan) (w : World) (s : Subscription) (e : ℕ)
    → find id w.db.subscriptions ≡ some s
    → (extend_subscription_by_duration id days plan w).0 ≡ ok e
    → find id (extend_subscription_by_duration id days plan w).1.db.subscriptions
      ≡ some (record s { expires_at = e; plan = plan; status = SubscriptionStatus.active })
extended id days plan w s e f h =
    rw ((extend_ok id days plan w s e f h).2, find-update, f) (ground (arith, eq_refl id))

contract_ok :
    (id days : ℕ) (w : World) (s : Subscription) (r : ℕ × Bool)
    → find id w.db.subscriptions ≡ some s
    → (contract_subscription_by_duration id days w).0 ≡ ok r
    → (days * day ≤ s.expires_at)
      × (r ≡ (s.expires_at - days * day, leb (s.expires_at - days * day) w.clock))
      × ((contract_subscription_by_duration id days w).1.db.subscriptions
          ≡ update id
              (λ s. record s {
                expires_at = r.0;
                status = if leb r.0 w.clock then SubscriptionStatus.reverted else s.status;
              })
              w.db.subscriptions)
unfolding contract_subscription_by_duration ◌>>=◌ query modify_db on_option now remote fail_if
contract_ok id days w s r f h = ground arith

-- For a subscription that has not expired: extending it by some days returns the old expiry plus
-- the days; contracting it by the same days in the world after that, if the database answers, gives
-- the old expiry back, reports that it has not passed, and leaves it in the table.
pub contract-extend :
    (id days : ℕ) (plan : SubscriptionPlan) (w : World) (s : Subscription) (e : ℕ) (r : ℕ × Bool)
    → find id w.db.subscriptions ≡ some s
    → w.clock < s.expires_at
    → (extend_subscription_by_duration id days plan w).0 ≡ ok e
    → (contract_subscription_by_duration id days
        (extend_subscription_by_duration id days plan w).1).0
      ≡ ok r
    → (e ≡ s.expires_at + days * day)
      × (r ≡ (s.expires_at, false))
      × (expiry_of (
            find id
              (contract_subscription_by_duration id days
                (extend_subscription_by_duration id days plan w).1).1.db.subscriptions)
          ≡ some s.expires_at)
contract-extend id days plan w s e r f l h k =
    let (sum, clock, _) = extend_ok id days plan w s e f h in
    let found = extended id days plan w s e f h in
    let (_, ret, rows) = contract_ok id days _ _ r found k in
    (ground arith, ground arith, rw (rows, find-update, found) (ground (arith, eq_refl id)))
