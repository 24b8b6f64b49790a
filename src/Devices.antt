-- ===== src/Devices.antt =====
-- internal/service/service.go, DeviceService: a user disconnects a device of the panel.
pub mod Owned
pub mod Balance
use testmellow.Prelude.{
  ℕ, ◌≡◌, refl, Bool, true, false, ◌||◌, not, none, some, List, ◌∷◌, arith, ◌⊎◌, Option-cases,
  Bool-cases, inl, inr, ◌==◌, find, exists,
}
use testmellow.World.Rows.{User, RemnaCall}
use testmellow.World.Exec.{
  Error, Result_cases, ok, World, Exec, pure, raise, ◌>>=◌, ◌>>◌, on_option, remote, remna, query,
  fail_if,
}
use testmellow.Remnawave.{text_or_empty, is_blank}
use testmellow.Repo.Users.{get_by_id}

-- `hwids` reads the identifiers of the devices in an answer of the panel about an account.
module _ (hwids : (remna_uuid answer : ℕ) → List ℕ) where
  -- `GetUserHwidDevices`
  unfoldable pub get_user_hwid_devices : (remna_uuid : ℕ) → Exec (List ℕ)
  get_user_hwid_devices remna_uuid = do n ← remote; pure (hwids remna_uuid n)

  -- `DisconnectDevice`
  unfoldable pub disconnect_device : (user_id hwid : ℕ) → Exec (Unit {0})
  unfolding get_user_hwid_devices
  disconnect_device user_id hwid = do
    fail_if (hwid == 0) Error.device_not_found
    row ← get_by_id user_id
    on_option row (raise Error.device_not_found) λ u. do
      fail_if (is_blank u.remna_user_uuid) Error.device_not_found
      devices ← get_user_hwid_devices (text_or_empty u.remna_user_uuid)
      fail_if (not (exists (λ d. d == hwid) devices)) Error.device_not_found
      remna (RemnaCall.delete_hwid_device hwid (text_or_empty u.remna_user_uuid))
      pure tt
