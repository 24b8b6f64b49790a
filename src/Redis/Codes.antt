-- ===== src/Redis/Codes.antt =====
-- The one-time codes in Redis that link a Telegram account, and that unlink it. The value of a key
-- is the id of a user; a value that is no UUID is not modelled.
use testmellow.Prelude.{ℕ, ◌+◌, some}
use testmellow.World.Exec.{Error, Exec, raise, ◌>>=◌, on_option, pure}
use testmellow.Redis.Store.{Key, put}
use testmellow.Redis.Limits.{script}
use testmellow.Redis.Sessions.{take_script}

-- "tg:link:%s", "tg:unlink:%s"
abbrev pub link_key : ℕ → Key
link_key code = record { format = 20; first = code; second = 0 }

abbrev pub unlink_key : ℕ → Key
unlink_key code = record { format = 21; first = code; second = 0 }

-- "rl:resetpw:%d", "rl:unlink_bot:%d", "rl:unlink_code:%s", "rl:link_code:%s"
abbrev pub reset_limit_key : ℕ → Key
reset_limit_key tg_id = record { format = 22; first = tg_id; second = 0 }

abbrev pub unlink_limit_key : ℕ → Key
unlink_limit_key tg_id = record { format = 23; first = tg_id; second = 0 }

abbrev pub unlink_code_limit_key : ℕ → Key
unlink_code_limit_key user_id = record { format = 24; first = user_id; second = 0 }

abbrev pub link_code_limit_key : ℕ → Key
link_code_limit_key user_id = record { format = 25; first = user_id; second = 0 }

-- `SET`
unfoldable pub set_code : Key → (user_id ttl : ℕ) → Exec (Unit {0})
set_code key user_id ttl =
    script (λ now c. (tt, put key (record { value = user_id; expires_at = some (now + ttl) }) c))

-- `GETDEL`: the user of the code, which is gone afterwards.
unfoldable pub take_code : Key → Exec ℕ
unfolding take_script
take_code key = do
  entry ← script (take_script key)
  on_option entry (raise Error.code_unknown) λ e. pure e.value
