-- ===== src/Auth/Admin.antt =====
-- service.go, `Register`: who becomes an administrator by the token of the environment.
use testmellow.Prelude.{ℕ, ◌≡◌, ◌≢◌, true, length, rows_where, ◌⊎◌, Bool, false, List}
use testmellow.World.Rows.{User, Db}
use testmellow.World.Exec.{World, Outcome}
use testmellow.Auth.Register.{RegisterInput}
use testmellow.World.Gives.{Gives}
use testmellow.World.Stays.{all_done, Stays}

abbrev admins_of : Db → ℕ
admins_of d = length (rows_where (λ (u : User). u.is_admin) d.users)

abbrev pub admins : World → ℕ
admins w = admins_of w.db

-- The request carries the token of the configuration.
abbrev pub HasToken : ℕ → RegisterInput → Type 0
HasToken token i = (token ≢ 0) × (i.bootstrap_token ≡ token)

-- Whether the user is an administrator is `b`.
abbrev Decided : ℕ → RegisterInput → Db → List Outcome → Bool → Type 0
Decided token i d os b =
    (b ≡ true → HasToken token i × ((admins_of d ≡ 0) ⊎ (all_done os ≡ false)))
    × (HasToken token i → admins_of d ≡ 0 → b ≡ true)

module _ (token : ℕ) (i : RegisterInput) (d : Db) (os : List Outcome) where
  abbrev Registered : ℕ × User → Type 0
  Registered (id, u) = Decided token i d os u.is_admin
