-- ===== src/Worker/Sweep.antt =====
-- worker.go: one tick of `periodicExpirySweep`.
use testmellow.Prelude.{ℕ, not, Option, none, some, List, [], ◌==◌}
use testmellow.Domain.{device_max_per_user}
use testmellow.World.Rows.{User, RemnaCall}
use testmellow.World.Exec.{
  Result, ok, err, Exec, pure, attempt, ◌>>=◌, ◌>>◌, on_option, on_result, when, for_each, remna,
  ignore,
}
use testmellow.Repo.Users.{get_by_id}
use testmellow.Repo.Subscriptions.{get_expired_subscription_user_ids, update_expired_subscriptions}
use testmellow.Repo.Expansions.{delete_expired_device_expansions}
use testmellow.Worker.Payment.{user_or_nil, account_of}

abbrev ids_or_none : Result (List ℕ) → List ℕ
ids_or_none (ok ids) = ids
ids_or_none (err e) = []

-- A user whose subscription has ended loses the access and the extra devices.
unfoldable pub disable_expired : ℕ → Exec (Unit {0})
disable_expired id = do
  row ← attempt (get_by_id id)
  when (not (account_of (user_or_nil row) == 0)) do
    ignore (remna (RemnaCall.disable_user (account_of (user_or_nil row))))
    ignore (
        remna
          (RemnaCall.update_hwid_device_limit (account_of (user_or_nil row)) device_max_per_user))

-- An account that is the empty text is asked for too here.
abbrev account_or_nil : Option User → Option ℕ
account_or_nil none = none
account_or_nil (some u) = u.remna_user_uuid

unfoldable pub reset_limit : ℕ → Exec (Unit {0})
reset_limit id = do
  row ← attempt (get_by_id id)
  on_option (account_or_nil (user_or_nil row)) (pure tt)
      λ account. ignore (remna (RemnaCall.update_hwid_device_limit account device_max_per_user))

-- The tick: a failure of the update ends it.
unfoldable pub sweep_expired : Exec (Unit {0})
unfolding disable_expired reset_limit
sweep_expired = do
  ids ← attempt get_expired_subscription_user_ids
  updated ← attempt update_expired_subscriptions
  on_result updated (λ _. pure tt)
      λ _. do
        for_each (ids_or_none ids) disable_expired
        gone ← attempt delete_expired_device_expansions
        for_each (ids_or_none gone) reset_limit
