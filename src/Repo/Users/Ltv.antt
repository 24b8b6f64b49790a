-- ===== src/Repo/Users/Ltv.antt =====
-- The life-time value and the discount of a user.
use testmellow.Prelude.{
  ℕ, ◌≡◌, ap, ◌∙◌, Option, none, some, arith, find, find-update, update, Option-cases, inl, inr,
  eq_refl,
}
use testmellow.Prelude.Int.{ℤ, pos, neg, ◌+ℤ◌, int_laws}
use testmellow.World.Rows.{User}
use testmellow.World.Exec.{ok, World, ◌>>=◌, query, modify_db, on_option, lift}
use testmellow.Repo.Users.{update_ltv}

abbrev pub ltv_of : Option User → ℤ
ltv_of none = pos 0
ltv_of (some u) = u.ltv

update_ltv_ok :
    (id : ℕ) (x : ℤ) (w : World) (u : User)
    → find id w.db.users ≡ some u
    → (update_ltv id x w).0 ≡ ok tt
    → (update_ltv id x w).1.db.users ≡ update id (λ u'. record u' { ltv = u.ltv +ℤ x }) w.db.users
unfolding update_ltv ◌>>=◌ query modify_db on_option lift
update_ltv_ok id x w u e h = ground arith

update_ltv-none :
    (id : ℕ) (x : ℤ) (w : World) → find id w.db.users ≡ none → (update_ltv id x w).1.db ≡ w.db
unfolding update_ltv ◌>>=◌ query modify_db on_option lift
update_ltv-none id x w e = ground arith

ltv_after :
    (id : ℕ) (x : ℤ) (w : World) (u : User)
    → find id w.db.users ≡ some u
    → (update_ltv id x w).0 ≡ ok tt
    → find id (update_ltv id x w).1.db.users ≡ some (record u { ltv = u.ltv +ℤ x })
ltv_after id x w u e h =
    rw (update_ltv_ok id x w u e h, find-update, e) (ground (arith, eq_refl id))

-- What a confirmed payment adds to the user's LTV, its revert takes off again: after both, if
-- neither fails, the LTV is what it was.
update_ltv-revert :
    (id kopecks : ℕ) (w : World)
    → (update_ltv id (pos kopecks) w).0 ≡ ok tt
    → (update_ltv id (neg (pos kopecks)) (update_ltv id (pos kopecks) w).1).0 ≡ ok tt
    → ltv_of
        (find id (update_ltv id (neg (pos kopecks)) (update_ltv id (pos kopecks) w).1).1.db.users)
      ≡ ltv_of (find id w.db.users)
update_ltv-revert id kopecks w h k = elim (Option-cases (find id w.db.users)) [
  | inl n ↦
      ap (λ d. ltv_of (find id d.users))
        (update_ltv-none id _ _ (rw (update_ltv-none id (pos kopecks) w n) n)
          ∙ update_ltv-none id (pos kopecks) w n)
  | inr (u, e) ↦ rw (e, ltv_after id _ _ _ (ltv_after id (pos kopecks) w u e h) k) (omega int_laws)
]
