-- ===== src/Trial/Once.antt =====
-- A trial is granted once.
use testmellow.Prelude.{
  ℕ, ◌≡◌, refl, Bool, true, false, Option, none, some, arith, find, find-update, eq_refl, inl, inr,
}
use testmellow.World.Rows.{Db, User, Subscription}
use testmellow.World.Exec.{
  Error, Result_cases, ok, err, World, ◌>>=◌, query, modify_db, remote, attempt, on_result,
  on_option, fail_if,
}
use testmellow.World.Keeps.{Keeps, keeps_rules, reads_rules, Keeps-bind, Keeps-pure}
use testmellow.World.Makes.{Makes, makes_rules}
use testmellow.World.Atomic.{
  IsAtomic, IsAtomic-of_reads, IsAtomic-transaction, IsAtomic-bind, IsAtomic-bind_Succeeds,
  Succeeds, succeeds_rules,
}
use testmellow.Repo.Users.{get_by_id, map_user, set_trial_used_tx, update_remna_uuid}
use testmellow.Repo.Subscriptions.{update_subscription_remna}
use testmellow.Economy.Accounts.{require_user}
use testmellow.Economy.Balance.{refresh_account-Keeps, recover_user-Keeps}
use testmellow.Economy.Atomicity.{
  require_user-Keeps, recover_user-Succeeds, refresh_account-Succeeds,
}
use testmellow.Trial.{sync_trial, commit_trial, activate_trial}

sync_trial-Succeeds : (id sub : ℕ) (u : User) (expiry : ℕ) → Succeeds (sync_trial id sub u expiry)
unfolding sync_trial
sync_trial-Succeeds id sub u expiry =
    search (succeeds_rules, recover_user-Succeeds, refresh_account-Succeeds) depth 20

activate_trial-IsAtomic : (id : ℕ) → IsAtomic (activate_trial id)
unfolding activate_trial commit_trial
activate_trial-IsAtomic id =
    search
      (
        IsAtomic-of_reads, IsAtomic-transaction, IsAtomic-bind, IsAtomic-bind_Succeeds, reads_rules,
        require_user-Keeps, succeeds_rules, sync_trial-Succeeds,
      )
      depth 20

-- ActivateTrial changes nothing in the database when it returns an error, whichever call fails at
-- whatever point: there is no trial subscription without the mark on the user, nor the reverse.
pub activate_trial-unchanged :
    (id : ℕ) (w : World) (e : Error)
    → (activate_trial id w).0 ≡ err e
    → (activate_trial id w).1.db ≡ w.db
activate_trial-unchanged id = (activate_trial-IsAtomic id).at

-- Whether the user has had a trial.
abbrev pub had_trial : Option User → Bool
had_trial none = false
had_trial (some u) = u.trial_used

refuses :
    (id : ℕ) (w : World) (o : Option User)
    → find id w.db.users ≡ o
    → had_trial o ≡ true
    → (e : Error) × ((activate_trial id w).0 ≡ err e) × ((activate_trial id w).1.db ≡ w.db)
unfolding activate_trial require_user get_by_id ◌>>=◌ query attempt on_result on_option fail_if
refuses id w none e h = cc
refuses id w (some u) e h = elim (Result_cases (remote w).0) [
  | inl (n, r) ↦ (Error.trial_used, ground (arith, e, h, r), ground (arith, e, h, r))
  | inr (c, r) ↦ (Error.user_not_found, ground (arith, e, h, r), ground (arith, e, h, r))
]

-- A user who has had a trial gets an error from ActivateTrial, whatever the services do, and the
-- database stays as it was.
pub activate_trial-refuses :
    (id : ℕ) (w : World)
    → had_trial (find id w.db.users) ≡ true
    → (e : Error) × ((activate_trial id w).0 ≡ err e) × ((activate_trial id w).1.db ≡ w.db)
activate_trial-refuses id w h = refuses id w (find id w.db.users) refl h

-- The mark stays.
module _ (k : ℕ) where
  abbrev Marked : Db → Type 0
  Marked d = had_trial (find k d.users) ≡ true

  map_user-Marked :
      (id : ℕ) (f : User → User) (d : Db)
      → ((u : User) → (f u).trial_used ≡ u.trial_used)
      → Marked d
      → Marked (map_user id f d)
  map_user-Marked id f d same m = step (find k d.users) refl m
    where
      step : (o : Option User) → find k d.users ≡ o → had_trial o ≡ true → Marked (map_user id f d)
      step none e h = cc
      step (some u) e h = rw (find-update, e) (ground (arith, same u))

  uuid-Marked : (id x : ℕ) → Keeps Marked (update_remna_uuid id x)
  unfolding update_remna_uuid
  uuid-Marked id x = search (keeps_rules, map_user-Marked) depth 12

  sub-Marked : (id x : ℕ) → Keeps Marked (update_subscription_remna id x)
  unfolding update_subscription_remna
  sub-Marked id x = search keeps_rules depth 12

  sync_trial-Marked :
      (id sub : ℕ) (u : User) (expiry : ℕ) → Keeps Marked (sync_trial id sub u expiry)
  unfolding sync_trial
  sync_trial-Marked id sub u expiry =
      search (keeps_rules, uuid-Marked, sub-Marked, refresh_account-Keeps, recover_user-Keeps) depth
        20

  set_trial_used_tx-Marked : Makes Marked (set_trial_used_tx k)
  unfolding set_trial_used_tx ◌>>=◌ query modify_db fail_if
  set_trial_used_tx-Marked = record { at = λ w a h. step w a (find k w.db.users) refl h }
    where
      step :
          (w : World) (a : Unit {0}) (o : Option User)
          → find k w.db.users ≡ o
          → (set_trial_used_tx k w).0 ≡ ok a
          → Marked (set_trial_used_tx k w).1.db
      step w a none e h = ground arith
      step w a (some u) e h =
          ground
            (arith, find-update k k (λ u. record u { trial_used = true }) w.db.users, eq_refl k)

  marks : Makes Marked (activate_trial k)
  unfolding activate_trial commit_trial
  marks =
      search (makes_rules, set_trial_used_tx-Marked, sync_trial-Marked, Keeps-bind, Keeps-pure)
        depth 20

-- A trial that is granted leaves its mark: the user has had a trial afterwards.
pub activate_trial-marks :
    (id : ℕ) (w : World) (s : Subscription)
    → (activate_trial id w).0 ≡ ok s
    → had_trial (find id (activate_trial id w).1.db.users) ≡ true
activate_trial-marks id w s h = (marks id).at w s h
