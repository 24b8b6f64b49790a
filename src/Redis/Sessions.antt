-- ===== src/Redis/Sessions.antt =====
-- redis.go: the allow-list of refresh tokens, the password version and the ban key.
pub mod Revocation
pub mod Version
pub mod Contract
pub mod Simulation
pub mod Refinement
use testmellow.Prelude.{
  ℕ, ◌+◌, Bool, true, false, ◌&&◌, not, Option, none, some, List, [], ◌∷◌, ltb, ◌==◌, if◌then◌else◌,
  is_some,
}
use testmellow.World.Exec.{
  Error, Result, ok, err, Exec, pure, raise, attempt, ◌>>=◌, ◌>>◌, on_option, on_result, fail_if,
  ignore,
}
use testmellow.Redis.Store.{Key, Entry, Cache, get, put, del}
use testmellow.Redis.Limits.{script}

-- "rt:%s", "pw:ver:%s" and "ban:%s"
abbrev pub refresh_key : ℕ → Key
refresh_key jti = record { format = 11; first = jti; second = 0 }

abbrev pub password_version_key : ℕ → Key
password_version_key user = record { format = 12; first = user; second = 0 }

abbrev pub ban_key : ℕ → Key
ban_key user = record { format = 13; first = user; second = 0 }

-- The set "rt:user:%s" of a user.
abbrev pub set_family : ℕ → List ℕ → Cache → Cache
set_family user jtis c = record c { sets = λ u. if u == user then jtis else c.sets u }

abbrev pub is_unexpired : (now : ℕ) → Option ℕ → Bool
is_unexpired now none = true
is_unexpired now (some t) = ltb now t

-- `SMEMBERS`: an expired set is empty.
abbrev pub members : (now user : ℕ) → Cache → List ℕ
members now user c = if is_unexpired now (c.set_ends user) then c.sets user else []

-- `EXPIRE` of the set.
abbrev pub expire_family : (user ends : ℕ) → Cache → Cache
expire_family user ends c = record c {
  set_ends = λ u. if u == user then some ends else c.set_ends u;
}

abbrev pub without : ℕ → List ℕ → List ℕ
without x [] = []
without x (y ∷ ys) = let rest = without x ys in if y == x then rest else y ∷ rest

-- `RegisterRefreshToken`: one pipeline of `SET`, `SADD`, which keeps a member that is there, and
-- `EXPIRE`, an hour after the token ends.
unfoldable pub register_script : (jti user ttl now : ℕ) → Cache → Unit {0} × Cache
register_script jti user ttl now c = (
  tt,
  put (refresh_key jti) (record { value = user; expires_at = some (now + ttl) })
      (expire_family user (now + ttl + 3600)
        (set_family user (jti ∷ without jti (members now user c)) c)),
)

unfoldable pub register_refresh_token : (jti user ttl : ℕ) → Exec (Unit {0})
unfolding register_script
register_refresh_token jti user ttl = script (register_script jti user ttl)

-- `GETDEL`
unfoldable pub take_script : Key → ℕ → Cache → Option Entry × Cache
take_script key now c = (get now key c, del key c)

-- `ValidateAndRevokeRefreshToken`: the user of the token, which is gone afterwards.
unfoldable pub validate_and_revoke : ℕ → Exec ℕ
unfolding take_script
validate_and_revoke jti = do
  entry ← script (take_script (refresh_key jti))
  on_option entry (raise Error.refresh_revoked) λ e. do
    if e.value == 0
        then pure tt
        else ignore
            (script (λ now c. (tt, set_family e.value (without jti (members now e.value c)) c)))
    pure e.value

-- `RevokeRefreshToken`
unfoldable pub revoke : ℕ → Exec (Unit {0})
revoke jti = script (λ now c. (tt, del (refresh_key jti) c))

unfoldable pub del_tokens : List ℕ → Cache → Cache
del_tokens [] c = c
del_tokens (j ∷ js) c = del_tokens js (del (refresh_key j) c)

-- `RevokeAllUserRefreshTokens`: `SMEMBERS`, then one pipeline.
unfoldable pub revoke_all : ℕ → Exec (Unit {0})
unfolding del_tokens
revoke_all user = do
  jtis ← script (λ now c. (members now user c, c))
  script (λ now c. (tt, set_family user [] (del_tokens jtis c)))

-- `SetPasswordVersion`, for 30 days.
unfoldable pub set_password_version : ℕ → ℕ → Exec (Unit {0})
set_password_version user t = script (λ now c. (
  tt,
  put (password_version_key user) (record { value = t; expires_at = some (now + 2592000) }) c,
))

abbrev changed_after : ℕ → Option Entry → Bool
changed_after issued_at none = false
changed_after issued_at (some e) = ltb issued_at e.value

-- `CheckPasswordVersion`: an error of Redis lets the token through.
unfoldable pub check_password_version : ℕ → ℕ → Exec (Unit {0})
check_password_version user issued_at = do
  entry ← attempt (script (λ now c. (get now (password_version_key user) c, c)))
  on_result entry (λ _. pure tt) λ e. fail_if (changed_after issued_at e) Error.forbidden

-- middleware.go: `SetBanKey` and the test of `BannedCheck`, which Redis errors let through.
unfoldable pub set_ban_key : ℕ → Bool → Exec (Unit {0})
set_ban_key user true =
    script (λ now c.
      (tt, put (ban_key user) (record { value = 1; expires_at = some (now + 2592000) }) c))
set_ban_key user false = script (λ now c. (tt, del (ban_key user) c))

unfoldable pub banned_check : ℕ → Exec (Unit {0})
banned_check user = do
  entry ← attempt (script (λ now c. (get now (ban_key user) c, c)))
  on_result entry (λ _. pure tt) λ e. fail_if (is_some e) Error.banned
