-- ===== src/Redis/Limits.antt =====
-- redis.go and engine.go: counters. A counter script runs atomically, so it is one step.
pub mod Reads
pub mod Window
pub mod Cap
use testmellow.Prelude.{
  ℕ, ◌+◌, ◌-◌, ◌*◌, ◌/◌, Bool, true, false, Option, none, some, ltb, leb, ◌==◌, if◌then◌else◌,
}
use testmellow.Prelude.Int.{ℤ, pos, pos_part, neg_part}
use testmellow.World.Exec.{
  Error, Result, ok, err, World, Exec, pure, raise, gets, attempt, ◌>>=◌, ◌>>◌, on_result,
  on_option, fail_if, remote, ignore,
}
use testmellow.Redis.Store.{Key, Entry, Cache, get, put, del}
use testmellow.Anticheat.{max_daily_yad_credit, max_daily_referrals, max_login_attempts}

-- The formats of the keys, in the order of the file.
abbrev pub rate_limit_key : ℕ → ℕ → Key
rate_limit_key action user = record { format = 0; first = action; second = user }

abbrev pub ip_limit_key : ℕ → ℕ → Key
ip_limit_key action ip = record { format = 1; first = action; second = ip }

abbrev pub referral_key : ℕ → Key
referral_key referrer = record { format = 2; first = referrer; second = 0 }

abbrev pub login_key : ℕ → Key
login_key identifier = record { format = 3; first = identifier; second = 0 }

abbrev pub yad_key : ℕ → Key
yad_key user = record { format = 4; first = user; second = 0 }

-- `incrementScript`: `INCR`, and `EXPIRE` when the result is 1.
abbrev incremented : ℕ → ℕ → Option Entry → Entry
incremented now ttl none = record { value = 1; expires_at = some (now + ttl) }
incremented now ttl (some e) = record {
  value = e.value + 1;
  expires_at = if e.value == 0 then some (now + ttl) else e.expires_at;
}

unfoldable pub increment_script : ℕ → Key → ℕ → Cache → ℕ × Cache
increment_script now key ttl c =
    let e = incremented now ttl (get now key c) in (e.value, put key e c)

abbrev pub run_script : {A : Type 0} → (ℕ → Cache → A × Cache) → Exec A
run_script f w = let (a, c) = f w.clock w.cache in (ok a, record w { cache = c })

unfoldable pub script : {A : Type 0} → (ℕ → Cache → A × Cache) → Exec A
unfolding ◌>>=◌ remote
script f = remote >> run_script f

unfoldable pub increment : Key → ℕ → Exec ℕ
unfolding script increment_script
increment key ttl = script (λ now. increment_script now key ttl)

-- `CheckAPIRateLimit` and `CheckIPRateLimit`: a Redis error lets the call through.
unfoldable pub check_rate_limit : Key → ℕ → ℕ → Exec (Unit {0})
unfolding increment
check_rate_limit key limit window = do
  count ← attempt (increment key window)
  on_result count (λ _. pure tt) λ n. fail_if (ltb limit n) Error.rate_limited

-- The number that `GET` gives, 0 for an absent key.
abbrev pub count_in : Option Entry → ℕ
count_in none = 0
count_in (some e) = e.value

abbrev keep_expiry : Option Entry → Option ℕ
keep_expiry none = none
keep_expiry (some e) = e.expires_at

-- `yadCapScript`: `none` stands for -1. The key expires at the end of the day, which is set when
-- the sum is the amount just added.
unfoldable pub yad_cap_script : ℕ → Key → ℕ → ℕ → ℕ → Cache → Option ℕ × Cache
yad_cap_script now key amount cap end_of_day c =
    let current = count_in (get now key c) in
    let sum = current + amount in
    let kept = get now key c in
    if ltb cap sum then (none, c) else (
      some sum,
      put key
          (record {
            value = sum;
            expires_at = if sum == amount then some end_of_day else keep_expiry kept;
          })
          c,
    )

-- Midnight after `now`, in whole days, for a server whose local time is UTC.
abbrev pub end_of_day : ℕ → ℕ
end_of_day now = (now / 86400 + 1) * 86400

-- `CheckAndAddDailyYADCredit`: a Redis error lets the credit through.
unfoldable pub check_and_add_daily_yad_credit : ℕ → ℕ → Exec (Unit {0})
unfolding script yad_cap_script
check_and_add_daily_yad_credit user_id amount = do
  sum ← attempt (
      script
        (λ now. yad_cap_script now (yad_key user_id) amount max_daily_yad_credit (end_of_day now)))
  on_result sum (λ _. pure tt) λ r. on_option r (raise Error.rate_limited) (λ _. pure tt)

-- `DECR`, on a counter that is there.
abbrev decremented : Option Entry → Cache → Key → Cache
decremented none c key = c
decremented (some e) c key = put key (record e { value = e.value - 1 }) c

abbrev decrement_script : ℕ → Key → Cache → Unit {0} × Cache
decrement_script now key c = (tt, decremented (get now key c) c key)

-- `CheckDailyReferralLimit`: a count above the limit is taken back.
unfoldable pub check_daily_referral_limit : ℕ → Exec (Unit {0})
check_daily_referral_limit referrer_id = do
  count ← attempt (increment (referral_key referrer_id) 86400)
  on_result count (λ _. pure tt)
      λ n.
        if ltb max_daily_referrals n
        then (do
          ignore (script (λ now. decrement_script now (referral_key referrer_id)))
          raise Error.rate_limited)
        else pure tt

-- `CheckLoginRateLimit` reads the count of failures.
unfoldable pub check_login_rate_limit : ℕ → Exec (Unit {0})
check_login_rate_limit identifier = do
  count ← attempt (script (λ now c. (count_in (get now (login_key identifier) c), c)))
  on_result count (λ _. pure tt) λ n. fail_if (ltb max_login_attempts n) Error.rate_limited

-- `RecordFailedLogin`
unfoldable pub record_failed_login : ℕ → Exec (Unit {0})
record_failed_login identifier = ignore (increment (login_key identifier) 900)

-- `ResetLoginAttempts`
unfoldable pub reset_login_attempts : ℕ → Exec (Unit {0})
reset_login_attempts identifier = ignore (script (λ now c. (tt, del (login_key identifier) c)))
