-- ===== src/Devices/Balance.antt =====
-- Devices do not touch the ledger.
use testmellow.Prelude.{ℕ, List}
use testmellow.World.Keeps.{Keeps, keeps_rules}
use testmellow.Repo.Users.{get_by_id}
use testmellow.Ledger.{IsBalanced}
use testmellow.Devices.{get_user_hwid_devices, disconnect_device}

pub disconnect_device-IsBalanced :
    (hwids : ℕ → ℕ → List ℕ) (id hwid : ℕ) → Keeps IsBalanced (disconnect_device hwids id hwid)
unfolding disconnect_device get_user_hwid_devices get_by_id
disconnect_device-IsBalanced hwids id hwid = search keeps_rules depth 16
