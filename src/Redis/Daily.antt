-- ===== src/Redis/Daily.antt =====
-- redis.go: SetToken, InvalidateToken and the daily counter without a cap, which nothing calls.
use testmellow.Prelude.{ℕ, ◌+◌, some}
use testmellow.World.Exec.{Exec}
use testmellow.Redis.Store.{Key, get, put, del}
use testmellow.Redis.Limits.{script, yad_key, count_in, end_of_day}

abbrev token_key : ℕ → Key
token_key user_id = record { format = 29; first = user_id; second = 0 }

unfoldable pub set_token : (user_id token ttl : ℕ) → Exec (Unit {0})
set_token user_id token ttl = script (λ now c.
    (tt, put (token_key user_id) (record { value = token; expires_at = some (now + ttl) }) c))

unfoldable pub invalidate_token : (user_id : ℕ) → Exec (Unit {0})
invalidate_token user_id = script (λ now c. (tt, del (token_key user_id) c))

unfoldable pub get_daily_yad_credit : (user_id : ℕ) → Exec ℕ
get_daily_yad_credit user_id = script (λ now c. (count_in (get now (yad_key user_id) c), c))

-- The pipeline: `INCRBY`, then `EXPIREAT` at the end of the day.
unfoldable pub add_daily_yad_credit : (user_id amount : ℕ) → Exec (Unit {0})
add_daily_yad_credit user_id amount = script (λ now c. (
  tt,
  put (yad_key user_id)
      (record {
        value = count_in (get now (yad_key user_id) c) + amount;
        expires_at = some (end_of_day now);
      })
      c,
))
