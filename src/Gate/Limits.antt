-- ===== src/Gate/Limits.antt =====
-- internal/middleware/middleware.go: the rate limits of addresses, users and administrators.
use testmellow.Prelude.{
  ℕ, ◌+◌, ◌<◌, ◌≡◌, none, List, arith, All, length, ltb, if◌then◌else◌, Option,
}
use testmellow.World.Exec.{
  Error, ok, err, World, Exec, pure, raise, attempt, ◌>>=◌, on_option, on_result, fail_if, remote,
}
use testmellow.Redis.Store.{Key, Cache, get}
use testmellow.Redis.Limits.{script, increment, increment_script}
use testmellow.Redis.Limits.Window.{after_calls, increment_script-next}

abbrev ip_limit_key : (prefix ip : ℕ) → Key
ip_limit_key prefix ip = record { format = 26; first = prefix; second = ip }

abbrev user_limit_key : ℕ → Key
user_limit_key id = record { format = 27; first = id; second = 0 }

abbrev admin_limit_key : ℕ → Key
admin_limit_key id = record { format = 28; first = id; second = 0 }

-- The part that the three limits share: an error of Redis lets the request through.
unfoldable pub limited : Key → (max window : ℕ) → Exec (Unit {0})
unfolding increment
limited key max window = do
  count ← attempt (increment key window)
  on_result count (λ _. pure tt) λ n. fail_if (ltb max n) Error.rate_limited

-- `IPRateLimit`
unfoldable pub ip_rate_limit : (prefix ip max window : ℕ) → Exec (Unit {0})
unfolding limited
ip_rate_limit prefix ip max window = limited (ip_limit_key prefix ip) max window

-- `UserRateLimit`: a request without a user is let through.
unfoldable pub user_rate_limit : Option ℕ → (max window : ℕ) → Exec (Unit {0})
unfolding limited
user_rate_limit user max window =
    on_option user (pure tt) λ id. limited (user_limit_key id) max window

-- `AdminRateLimit`
unfoldable pub admin_rate_limit : Option ℕ → (max window : ℕ) → Exec (Unit {0})
unfolding limited
admin_rate_limit user max window =
    on_option user (pure tt) λ id. limited (admin_limit_key id) max window

-- The first requests of a window are let through, up to the maximum, and no others while Redis
-- answers: after a first request that found no counter, at the time `first`, and any requests within
-- `window` seconds of it, the next one within them is refused exactly if there were at least `max`
-- before it. When Redis fails, it is let through.
pub limited-window :
    (key : Key) (max window first : ℕ) (ts : List ℕ) (c : Cache) (w : World)
    → get first key c ≡ none
    → All (λ t. t < first + window) ts
    → w.clock < first + window
    → w.cache ≡ after_calls key window ts (increment_script first key window c).1
    → ((n : ℕ)
        → (remote w).0 ≡ ok n
        → (limited key max window w).0
          ≡ (if ltb max (length ts + 2) then err Error.rate_limited else ok tt))
      × ((e : Error) → (remote w).0 ≡ err e → (limited key max window w).0 ≡ ok tt)
unfolding limited script increment ◌>>=◌ attempt on_result fail_if pure raise remote
limited-window key max window first ts c w e a l same = (
  λ n r. ground (arith, r, same, increment_script-next key window first ts c w.clock e a l),
  λ x r. ground (arith, r),
)
