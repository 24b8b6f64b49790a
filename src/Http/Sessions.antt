-- ===== src/Http/Sessions.antt =====
-- A change of the password ends the sessions.
use testmellow.Prelude.{ℕ, ◌+◌, some}
use testmellow.World.Exec.{World}
use testmellow.Redis.Store.{put, Cache}
use testmellow.Redis.Sessions.{password_version_key}

abbrev stamped : ℕ → World → Cache
stamped id w =
    put (password_version_key id)
      (record { value = w.clock; expires_at = some (w.clock + 2592000) }) w.cache
