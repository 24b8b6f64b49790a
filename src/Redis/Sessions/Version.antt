-- ===== src/Redis/Sessions/Version.antt =====
-- redis.go: the password version of a user against the time at which a token was issued.
use testmellow.Prelude.{ℕ, ◌≡◌, ◌<◌, ◌+◌, arith}
use testmellow.World.Exec.{Error, ok, err, World, ◌>>=◌, attempt, on_result, fail_if, remote}
use testmellow.Redis.Limits.{script}
use testmellow.Redis.Store.{get, put}
use testmellow.Redis.Sessions.{set_password_version, check_password_version}

-- After SetPasswordVersion with the time t, for 30 days and with no other command between them,
-- CheckPasswordVersion refuses every token of the user issued before t, provided that Redis answers
-- it.
pub check_password_version-set :
    (user t issued_at : ℕ) (w w' : World) (n : ℕ)
    → (set_password_version user t w).0 ≡ ok tt
    → w'.cache ≡ (set_password_version user t w).1.cache
    → w'.clock < w.clock + 2592000
    → (remote w').0 ≡ ok n
    → issued_at < t
    → (check_password_version user issued_at w').0 ≡ err Error.forbidden
unfolding check_password_version set_password_version script ◌>>=◌ attempt on_result fail_if get put
    remote
check_password_version-set user t issued_at w w' n h c k r l = ground arith
