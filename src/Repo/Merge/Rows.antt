-- ===== src/Repo/Merge/Rows.antt =====
-- Rows that refer to a user, after a statement has moved or deleted them.
use testmellow.Prelude.{
  ℕ, ◌≡◌, ◌≢◌, refl, Bool, false, ◌||◌, some, List, [], ◌∷◌, arith, Option-cases, inl, inr, exists,
  any_row, Table, update, update_where, update_others, remove_where, map_where, drop_where,
}
use testmellow.World.Rows.{User}
use testmellow.Repo.Accounts.{equals}
use testmellow.Repo.Merge.Deletion.{referring, without_referrer}

module _ {A : Type 0} (p : A → Bool) where
  pub exists-map_where :
      (f : A → A) (xs : List A) → ((x : A) → p (f x) ≡ false) → exists p (map_where p f xs) ≡ false
  unfolding map_where
  exists-map_where f [] h = refl
  exists-map_where f (x ∷ xs) h = ground (arith, h x, exists-map_where f xs h)

  pub exists-drop_where : (xs : List A) → exists p (drop_where p xs) ≡ false
  unfolding drop_where
  exists-drop_where [] = refl
  exists-drop_where (x ∷ xs) = ground (arith, exists-drop_where xs)

  pub any-update_where :
      (f : A → A) (t : Table A)
      → ((x : A) → p (f x) ≡ false)
      → any_row p (update_where p f t) ≡ false
  unfolding update_where
  any-update_where f [] h = refl
  any-update_where f ((k, x) ∷ t) h = ground (arith, h x, any-update_where f t h)

  pub any-remove_where : (t : Table A) → any_row p (remove_where p t) ≡ false
  unfolding remove_where
  any-remove_where [] = refl
  any-remove_where ((k, x) ∷ t) = ground (arith, any-remove_where t)

  pub any-remove_other :
      (q : A → Bool) (t : Table A) → any_row p t ≡ false → any_row p (remove_where q t) ≡ false
  unfolding remove_where
  any-remove_other q [] h = refl
  any-remove_other q ((k, x) ∷ t) h = ground (arith, h, any-remove_other q t)

pub any-or :
    {A : Type 0} (p q : A → Bool) (t : Table A)
    → any_row (λ x. p x || q x) t ≡ (any_row p t || any_row q t)
any-or p q [] = refl
any-or p q ((k, x) ∷ t) = ground (arith, any-or p q t)

-- Nobody is left with the source as referrer.
pub referring-moved :
    (src dst : ℕ) (f : User → User) (t : Table User)
    → src ≢ dst
    → ((u : User) → (f u).referrer_id ≡ u.referrer_id)
    → exists (referring src) (
        update src f (
          update dst (without_referrer src) (
            update_others dst
              (λ u. equals u.referrer_id src)
              (λ u. record u { referrer_id = some dst })
              t)))
      ≡ false
unfolding update update_others
referring-moved src dst f [] ne same = refl
referring-moved src dst f ((k, u) ∷ t) ne same = elim (Option-cases u.referrer_id) [
  | inl n ↦ ground (arith, n, ne, same, referring-moved src dst f t ne same)
  | inr (r, e) ↦ ground (arith, e, ne, same, referring-moved src dst f t ne same)
]
