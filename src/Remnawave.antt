-- ===== src/Remnawave.antt =====
-- internal/integration/remnawave/client.go as its callers see it: requests that the panel accepts
-- or not, and the recovery of an account that the panel already has.
use testmellow.Prelude.{ℕ, Bool, true, Option, none, some, ◌==◌, if◌then◌else◌}
use testmellow.World.Rows.{User, RemnaCall}
use testmellow.World.Exec.{
  Result, ok, err, Exec, pure, attempt, ◌>>=◌, ◌>>◌, on_option, remote, remna, ignore,
}

-- `*user.RemnaUserUUID`, or "" where it is nil.
abbrev pub text_or_empty : Option ℕ → ℕ
text_or_empty none = 0
text_or_empty (some t) = t

-- `user.RemnaUserUUID == nil || *user.RemnaUserUUID == ""`
abbrev pub is_blank : Option ℕ → Bool
is_blank none = true
is_blank (some t) = t == 0

-- `RemnaUsername`; the text of a UUID is its number.
unfoldable pub remna_username : ℕ → User → ℕ
remna_username id u = if is_blank u.username then id else text_or_empty u.username

-- `GetUserByUsername`: the panel's UUID, or nil.
abbrev found_uuid : ℕ → Option ℕ
found_uuid n = if n == 0 then none else some n

unfoldable pub get_user_by_username : ℕ → Exec (Option ℕ)
get_user_by_username name = do n ← remote; pure (found_uuid n)

abbrev found : Result (Option ℕ) → Option ℕ
found (ok o) = o
found (err e) = none

-- The lookup by name, then by the text of the user's UUID.
unfoldable pub recover_user : ℕ → ℕ → Exec (Option ℕ)
unfolding get_user_by_username
recover_user name user_id = do
  r ← attempt (get_user_by_username name)
  on_option (found r) (do r' ← attempt (get_user_by_username user_id); pure (found r'))
      (λ uuid. pure (some uuid))

unfoldable pub refresh_account : ℕ → ℕ → Exec (Unit {0})
refresh_account uuid expiry = do
  ignore (remna (RemnaCall.update_expiry uuid expiry))
  ignore (remna (RemnaCall.enable_user uuid))
