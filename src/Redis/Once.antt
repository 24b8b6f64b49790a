-- ===== src/Redis/Once.antt =====
-- redis.go: `SetNX`, the idempotency keys, and the lock with a token.
pub mod Locks
use testmellow.Prelude.{
  ℕ, ◌+◌, Bool, true, false, ◌&&◌, ◌≡◌, Option, none, some, ◌==◌, if◌then◌else◌, is_some,
}
use testmellow.Domain.{PaymentStatus, payment_status_code}
use testmellow.World.Exec.{Exec, ◌>>=◌, ◌>>◌, pure, new_id}
use testmellow.Redis.Store.{Key, Entry, Cache, get, put, del}
use testmellow.Redis.Limits.{script}

-- "pay:processed:%s:%s"
abbrev pub pay_processed_key : ℕ → PaymentStatus → Key
pay_processed_key tx status = record { format = 5; first = tx; second = payment_status_code status }

-- "devexp:processed:%s"
abbrev pub devexp_processed_key : ℕ → Key
devexp_processed_key payment = record { format = 6; first = payment; second = 0 }

-- "lock:reward:payout:%s" and "lock:reward:payout:imm:%s"
abbrev pub payout_lock_key : ℕ → Key
payout_lock_key reward = record { format = 7; first = reward; second = 0 }

abbrev pub sweep_lock_key : ℕ → Key
sweep_lock_key reward = record { format = 8; first = reward; second = 0 }

-- "worker:sync:%s" and "pay:queued:%s"
abbrev pub sync_key : ℕ → Key
sync_key payment = record { format = 9; first = payment; second = 0 }

abbrev pub pay_queued_key : ℕ → Key
pay_queued_key tx = record { format = 10; first = tx; second = 0 }

-- `SET key value NX EX ttl`: whether the key was free.
unfoldable pub set_nx_script : ℕ → Key → ℕ → ℕ → Cache → Bool × Cache
set_nx_script now key value ttl c =
    if is_some (get now key c)
    then (false, c)
    else (true, put key (record { value = value; expires_at = some (now + ttl) }) c)

unfoldable pub set_nx : Key → ℕ → ℕ → Exec Bool
unfolding script set_nx_script
set_nx key value ttl = script (λ now. set_nx_script now key value ttl)

-- `TryLock`: the token and whether the lock was free.
unfoldable pub try_lock : Key → ℕ → Exec (ℕ × Bool)
unfolding set_nx
try_lock key ttl = do token ← new_id; locked ← set_nx key token ttl; pure (token, locked)

abbrev pub holds : ℕ → Option Entry → Bool
holds token none = false
holds token (some e) = e.value == token

-- `unlockScript`
unfoldable pub unlock_script : ℕ → Key → ℕ → Cache → Unit {0} × Cache
unlock_script now key token c = (tt, if holds token (get now key c) then del key c else c)

unfoldable pub unlock : Key → ℕ → Exec (Unit {0})
unfolding script unlock_script
unlock key token = script (λ now. unlock_script now key token)

-- `DEL`
unfoldable pub delete_key : Key → Exec (Unit {0})
unfolding script
delete_key key = script (λ now c. (tt, del key c))
