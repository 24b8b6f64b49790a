-- ===== src/Repo/Promos.antt =====
-- user_repo.go: promo codes.
use testmellow.Prelude.{
  ℕ, ◌+◌, Bool, false, ◌&&◌, not, Option, none, some, ◌∷◌, ltb, ◌==◌, find, update, rows_where,
  exists,
}
use testmellow.World.Rows.{PromoCode, PromoCodeUse}
use testmellow.World.Exec.{Error, Exec, ◌>>=◌, ◌>>◌, fail_if, query, modify_db}
use testmellow.Repo.Rewards.{first}

unfoldable pub get_promo_by_code : ℕ → Exec (Option (ℕ × PromoCode))
get_promo_by_code code = query (λ d. first (rows_where (λ p. p.code == code) d.promocodes))

abbrev pub is_use : ℕ → ℕ → PromoCodeUse → Bool
is_use promo_id user_id u = (u.promo_code_id == promo_id) && (u.user_id == user_id)

unfoldable pub has_user_used_promo : ℕ → ℕ → Exec Bool
has_user_used_promo promo_id user_id =
    query (λ d. exists (is_use promo_id user_id) d.promocode_uses)

abbrev pub has_uses_left : Option PromoCode → Bool
has_uses_left none = false
has_uses_left (some p) = ltb p.used_count p.max_uses

-- `UsePromoCode`: the counted UPDATE, then the row of the user, which is unique.
unfoldable pub use_promo_code : ℕ → ℕ → Exec (Unit {0})
use_promo_code promo_id user_id = do
  row ← query (λ d. find promo_id d.promocodes)
  fail_if (not (has_uses_left row)) Error.promo_exhausted
  modify_db (λ d. record d {
    promocodes = update promo_id (λ p. record p { used_count = p.used_count + 1 }) d.promocodes;
  })
  used ← query (λ d. exists (is_use promo_id user_id) d.promocode_uses)
  fail_if used Error.unique_violation
  modify_db (λ d. record d {
    promocode_uses = record { promo_code_id = promo_id; user_id = user_id } ∷ d.promocode_uses;
  })
