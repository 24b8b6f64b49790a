-- ===== src/Tests/Devices.antt =====
-- A user disconnects the device 42, which is on the panel's list of the user's devices.
use testmellow.Prelude.{ℕ, ◌≡◌, ◌⊎◌, List, [], ◌∷◌, ◌==◌, if◌then◌else◌}
use testmellow.World.Exec.{World, Outcome}
use testmellow.Devices.{disconnect_device}
use testmellow.Devices.Owned.{Deleted, disconnect_device-owned}
use testmellow.Tests.Worlds.{world_with}

abbrev panel_answers : World
panel_answers = world_with (Outcome.done 0 ∷ Outcome.done 42 ∷ [])

-- Only the account 14 has a device.
abbrev listed : ℕ → ℕ → List ℕ
listed uuid n = if uuid == 14 then n ∷ [] else []

disconnect_device-owned_example :
    ((disconnect_device listed 1 42 panel_answers).1.remna ≡ panel_answers.remna)
    ⊎ Deleted listed 1 42 panel_answers
disconnect_device-owned_example = disconnect_device-owned listed 1 42 panel_answers
