-- ===== src/Admin/Bans.antt =====
-- A ban takes effect at once, and ends when it is lifted.
use testmellow.Prelude.{ℕ, ◌+◌, ◌<◌, ◌≡◌, true, false, some, arith, find, find-update}
use testmellow.World.Rows.{User}
use testmellow.World.Exec.{
  Error, World, ok, err, ◌>>=◌, attempt, ignore, on_result, fail_if, remote, execute, modify_db,
}
use testmellow.Redis.Store.{get, put, del}
use testmellow.Redis.Limits.{script}
use testmellow.Redis.Sessions.{banned_check, set_ban_key}
use testmellow.Repo.Profiles.{update_ban_status}
use testmellow.Http.Replay.{calm}
use testmellow.Admin.{audit, ban_user, unban_user}

-- When every call is answered, BanUser sets the flag of the user's row, and for 30 days
-- BannedCheck refuses the requests of the user's access tokens; UnbanUser in that time clears the
-- flag and lets the requests through again.
pub ban_user-blocks :
    (id n : ℕ) (u : User) (w w' : World)
    → find id w.db.users ≡ some u
    → w'.cache ≡ (ban_user id (calm w)).1.cache
    → w'.db ≡ (ban_user id (calm w)).1.db
    → w'.clock < w.clock + 2592000
    → (remote w').0 ≡ ok n
    → (find id w'.db.users ≡ some (record u { is_banned = true }))
      × ((banned_check id w').0 ≡ err Error.banned)
      × (find id (unban_user id (calm w')).1.db.users ≡ some (record u { is_banned = false }))
      × ((banned_check id (unban_user id (calm w')).1).0 ≡ ok tt)
unfolding ban_user unban_user update_ban_status set_ban_key audit banned_check script ◌>>=◌ attempt
    ignore on_result fail_if remote execute modify_db get put del
ban_user-blocks id n u w w' e c d t r =
    let set : find id w'.db.users ≡ some (record u { is_banned = true }) =
      ground (arith, e, d, find-update id id (λ x. record x { is_banned = true }) w.db.users) in
    (
      set,
      ground (arith, c, t, r),
      ground (arith, set, find-update id id (λ x. record x { is_banned = false }) w'.db.users),
      ground (arith, c),
    )
