-- ===== src/Devices/Owned.antt =====
-- The defence of DisconnectDevice against foreign identifiers.
use testmellow.Prelude.{
  ℕ, ◌≡◌, true, false, some, List, ◌∷◌, arith, ◌⊎◌, Option-cases, Bool-cases, inl, inr, ◌==◌, find,
  exists,
}
use testmellow.World.Rows.{User, RemnaCall}
use testmellow.World.Exec.{
  Result_cases, ok, World, pure, raise, ◌>>=◌, on_option, remote, remna, query, fail_if,
}
use testmellow.Repo.Users.{get_by_id}
use testmellow.Devices.{get_user_hwid_devices, disconnect_device}

-- A request to delete a device that the panel accepted.
pub record Deleted (hwids : ℕ → ℕ → List ℕ) (user_id hwid : ℕ) (w : World) : Type 0 where
  pub user : User
  pub uuid : ℕ
  pub answer : ℕ
  pub theirs : find user_id w.db.users ≡ some user
  pub account : user.remna_user_uuid ≡ some uuid
  pub listed : (remote (remote w).1).0 ≡ ok answer
  pub owned : exists (λ d. d == hwid) (hwids uuid answer) ≡ true
  pub sent :
      (disconnect_device hwids user_id hwid w).1.remna
      ≡ RemnaCall.delete_hwid_device hwid uuid ∷ w.remna

module _ (hwids : ℕ → ℕ → List ℕ) (user_id hwid : ℕ) (w : World) where
  abbrev IsOwn : Type 0
  IsOwn =
      ((disconnect_device hwids user_id hwid w).1.remna ≡ w.remna) ⊎ Deleted hwids user_id hwid w

  with_account-IsOwn :
      (u : User) (uuid n : ℕ)
      → (hwid == 0) ≡ false
      → (remote w).0 ≡ ok n
      → find user_id w.db.users ≡ some u
      → u.remna_user_uuid ≡ some uuid
      → IsOwn
  unfolding disconnect_device get_by_id query get_user_hwid_devices remna ◌>>=◌ on_option raise pure
      remote fail_if
  with_account-IsOwn u uuid n z r f a = elim (Result_cases (remote (remote w).1).0) [
    | inl (k, q) ↦ elim (Bool-cases (exists (λ d. d == hwid) (hwids uuid k))) [
      | inl e ↦ elim (Bool-cases (uuid == 0)) [
        | inl b ↦ inl (ground (arith, z, r, f, a, b))
        | inr b ↦ elim (Result_cases (remote (remote (remote w).1).1).0) [
          | inl (j, s) ↦ inr (record {
            user = u;
            uuid = uuid;
            answer = k;
            theirs = f;
            account = a;
            listed = q;
            owned = e;
            sent = ground (arith, z, r, f, a, b, q, e, s);
          })
          | inr (x, s) ↦ inl (ground (arith, z, r, f, a, b, q, e, s))
        ]
      ]
      | inr e ↦ inl (ground (arith, z, r, f, a, q, e))
    ]
    | inr (x, q) ↦ inl (ground (arith, z, r, f, a, q))
  ]

  -- A user disconnects only devices that the panel lists for the user's own account: whatever fails,
  -- DisconnectDevice sends the panel no request that it accepts, or one, to delete the named device
  -- of the account in the user's row, after the panel has listed that device for the account.
  pub disconnect_device-owned :
      ((disconnect_device hwids user_id hwid w).1.remna ≡ w.remna) ⊎ Deleted hwids user_id hwid w
  unfolding disconnect_device get_by_id query ◌>>=◌ on_option raise pure remote fail_if
  disconnect_device-owned = elim (Bool-cases (hwid == 0)) [
    | inl z ↦ inl (ground (arith, z))
    | inr z ↦ elim (Result_cases (remote w).0) [
      | inl (n, r) ↦ elim (Option-cases (find user_id w.db.users)) [
        | inl f ↦ inl (ground (arith, z, r, f))
        | inr (u, f) ↦ elim (Option-cases u.remna_user_uuid) [
          | inl a ↦ inl (ground (arith, z, r, f, a))
          | inr (uuid, a) ↦ with_account-IsOwn u uuid n z r f a
        ]
      ]
      | inr (x, r) ↦ inl (ground (arith, z, r))
    ]
  ]
