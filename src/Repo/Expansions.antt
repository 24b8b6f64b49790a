-- ===== src/Repo/Expansions.antt =====
-- user_repo.go: device expansions, one row for each user.
use testmellow.Prelude.{
  ℕ, Option, none, some, List, [], ◌∷◌, max, ltb, leb, if◌then◌else◌, Table, find, update, remove,
  rows_where,
}
use testmellow.World.Rows.{Db, DeviceExpansion}
use testmellow.World.Exec.{Exec, pure, ◌>>=◌, ◌>>◌, query, execute, modify_db, now}

abbrev active_at : ℕ → Option DeviceExpansion → Option DeviceExpansion
active_at t none = none
active_at t (some e) = if ltb t e.expires_at then some e else none

unfoldable pub get_active_device_expansion : ℕ → Exec (Option DeviceExpansion)
get_active_device_expansion user_id = do
  t ← now
  query (λ d. active_at t (find user_id d.device_expansions))

-- The row after `INSERT … ON CONFLICT (user_id) DO UPDATE`.
abbrev pub upserted : DeviceExpansion → DeviceExpansion → DeviceExpansion
upserted e old = record old {
  extra_devices = max old.extra_devices e.extra_devices;
  expires_at = max old.expires_at e.expires_at;
}

abbrev pub upsert_expansion : ℕ → DeviceExpansion → Db → Db
upsert_expansion user_id e d = elim (find user_id d.device_expansions) [
  | none ↦ record d { device_expansions = (user_id, e) ∷ d.device_expansions }
  | some _ ↦ record d { device_expansions = update user_id (upserted e) d.device_expansions }
]

unfoldable pub create_device_expansion : ℕ → DeviceExpansion → Exec (Unit {0})
create_device_expansion user_id e = execute (upsert_expansion user_id e)

unfoldable pub delete_device_expansion_for_user : ℕ → Exec (Unit {0})
delete_device_expansion_for_user user_id =
    execute (λ d. record d { device_expansions = remove user_id d.device_expansions })

abbrev user_ids {ℓ} : {A : Type ℓ} → Table A → List ℕ
user_ids [] = []
user_ids ((k, e) ∷ t) = k ∷ user_ids t

-- `DELETE … WHERE expires_at <= NOW() RETURNING user_id`
unfoldable pub delete_expired_device_expansions : Exec (List ℕ)
delete_expired_device_expansions = do
  t ← now
  gone ← query (λ d. user_ids (rows_where (λ e. leb e.expires_at t) d.device_expansions))
  modify_db (λ d. record d {
    device_expansions = rows_where (λ e. ltb t e.expires_at) d.device_expansions;
  })
  pure gone
