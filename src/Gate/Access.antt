-- ===== src/Gate/Access.antt =====
-- What the middleware lets through.
use testmellow.Prelude.{
  ℕ, ◌≡◌, refl, Bool, true, false, Option, none, some, List, arith, find, ◌⊎◌, inl, inr,
}
use testmellow.World.Rows.{User}
use testmellow.World.Exec.{
  Error, Result_cases, remote, ok, err, World, ◌>>=◌, query, attempt, on_result, on_option, fail_if,
}
use testmellow.Gate.{
  Claims, admin_db_check, is_admin, cors, CorsAnswer, AllowOrigin, is_listed, is_dev_wildcard,
}

abbrev pub is_admin_row : Option User → Bool
is_admin_row none = false
is_admin_row (some u) = u.is_admin

sound :
    (c : Claims) (w : World) (o : Option User)
    → find c.user_id w.db.users ≡ o
    → ((n : ℕ) × ((remote w).0 ≡ ok n)) ⊎ ((e : Error) × ((remote w).0 ≡ err e))
    → (admin_db_check c w).0 ≡ ok tt
    → (c.is_admin ≡ true) × (is_admin_row o ≡ true) × ((n : ℕ) × ((remote w).0 ≡ ok n))
unfolding admin_db_check is_admin ◌>>=◌ query attempt on_result on_option fail_if
sound c w none e r h = absurd (ground (arith, r, h))
sound c w (some u) e (inl (n, r)) h = (ground arith, ground arith, (n, r))
sound c w (some u) e (inr (x, r)) h = absurd (ground (arith, r, h))

-- AdminDBCheck lets a request through only if its token claims the administrator and the database
-- has the user as one at that moment, and only if the call of the database was answered: any failure
-- of it keeps the request out.
pub admin_db_check_sound :
    (c : Claims) (w : World)
    → (admin_db_check c w).0 ≡ ok tt
    → (c.is_admin ≡ true)
      × (is_admin_row (find c.user_id w.db.users) ≡ true)
      × ((n : ℕ) × ((remote w).0 ≡ ok n))
admin_db_check_sound c w h =
    sound c w (find c.user_id w.db.users) refl (Result_cases (remote w).0) h

-- CORS allows credentials only to an origin of the list, which it echoes, and never together with
-- the wildcard; the wildcard is answered only where the list is exactly "*"; and an origin that is
-- neither listed nor covered by the wildcard has its preflight refused with 403.
pub cors-credentials :
    (allowed : List ℕ) (origin : ℕ) (a : CorsAnswer)
    → cors allowed origin ≡ some a
    → (a.credentials ≡ true
        → (is_listed origin allowed ≡ true) × (a.allow_origin ≡ AllowOrigin.only origin))
      × (a.allow_origin ≡ AllowOrigin.any → is_dev_wildcard allowed ≡ true)
      × (is_listed origin allowed ≡ false
          → is_dev_wildcard allowed ≡ false
          → (a.preflight_status ≡ 403) × (a.allow_origin ≡ AllowOrigin.nobody))
unfolding cors
cors-credentials allowed origin a h = ground arith
