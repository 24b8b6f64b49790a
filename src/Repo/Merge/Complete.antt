-- ===== src/Repo/Merge/Complete.antt =====
-- A merge leaves nothing of its source behind, and the deletion of the source is never refused.
use testmellow.Prelude.{
  ℕ, ◌≡◌, ◌≢◌, refl, Bool, false, none, List, [], ◌∷◌, ◌++◌, arith, inl, inr, ◌==◌, if◌then◌else◌,
  find, find-remove, exists, remove, Table, subst, sym, ◌∙◌,
}
use testmellow.Prelude.Int.{pos, ◌+ℤ◌}
use testmellow.World.Rows.{Db, User}
use testmellow.World.Exec.{Result_cases, ok, World}
use testmellow.World.Keeps.{Keeps}
use testmellow.World.Atomic.{IsAtomic-transaction}
use testmellow.Ledger.{balance_of, IsBalanced}
use testmellow.Repo.Merge.{account_moved, merge_statements, merge_users}
use testmellow.Repo.Merge.Statements.{Statement, reassign}
use testmellow.Repo.Merge.Deletion.{
  referral_clean_up, deletion, is_mentioned, references, referring, source_deleted,
}
use testmellow.Repo.Merge.Rows.{exists-drop_where}
use testmellow.Repo.Merge.Runs.{apply_all, AllClear, Merged, merged, body}
use testmellow.Repo.Merge.Balance.{merge-IsBalanced, merge-balance, users-merged}

apply_all-++ :
    (xs ys : List Statement) (d : Db) → apply_all (xs ++ ys) d ≡ apply_all ys (apply_all xs d)
apply_all-++ [] ys d = refl
apply_all-++ (x ∷ xs) ys d = apply_all-++ xs ys (x.change d)

AllClear-++ :
    (xs ys : List Statement) (d : Db) → AllClear (xs ++ ys) d → AllClear ys (apply_all xs d)
AllClear-++ [] ys d c = c
AllClear-++ (x ∷ xs) ys d (c, cs) = AllClear-++ xs ys (x.change d) cs

exists-remove :
    (p : ℕ × User → Bool) (k : ℕ) (t : Table User)
    → exists p t ≡ false
    → exists p (remove k t) ≡ false
unfolding remove
exists-remove p k [] h = refl
exists-remove p k ((j, v) ∷ t) h = ground (arith, h, exists-remove p k t)

-- The rows that refer to the source keep it from being deleted.
source_deleted-unmentioned :
    (src dst : ℕ) (d : Db)
    → (source_deleted src dst).refused d ≡ none
    → is_mentioned src ((source_deleted src dst).change d) ≡ false
unfolding is_mentioned references
source_deleted-unmentioned src dst d h =
    rw
      (
        find-remove,
        exists-drop_where (λ l. l.user_id == src) d.logins,
        exists-drop_where (λ a. a.user_id == src) d.activities,
      )
      (ground (arith, h, exists-remove (referring src) src d.users))

deletion-unmentioned :
    (src dst : ℕ) (d : Db)
    → AllClear (deletion src dst) d
    → is_mentioned src (apply_all (deletion src dst) d) ≡ false
unfolding deletion
deletion-unmentioned src dst d c = source_deleted-unmentioned src dst _ c.1.1.1.1.1.0

Merged-unmentioned : (src dst : ℕ) (d e : Db) → Merged src dst d e → is_mentioned src e ≡ false
unfolding merge_statements reassign referral_clean_up deletion
Merged-unmentioned src dst d e m =
    let xs = account_moved dst m.source ∷ reassign src dst in
    let ys = referral_clean_up src dst in
    let c =
      AllClear-++ ys (deletion src dst) _ (AllClear-++ xs (ys ++ deletion src dst) d m.clear) in
    let same = apply_all-++ xs (ys ++ deletion src dst) d ∙ apply_all-++ ys (deletion src dst) _ in
    subst (λ x. is_mentioned src x ≡ false) (sym (m.result ∙ same))
      (deletion-unmentioned src dst _ c)

pub merge_users-IsBalanced : (src dst : ℕ) → src ≢ dst → Keeps IsBalanced (merge_users src dst)
unfolding merge_users
merge_users-IsBalanced src dst ne = record {
  at = λ w b. elim (Result_cases (merge_users src dst w).0) [
    | inl (u, h) ↦ merge-IsBalanced src dst ne w.db _ (merged src dst w h) b
    | inr (e, h) ↦ subst IsBalanced (sym ((IsAtomic-transaction (body src dst)).at w e h)) b
  ];
}

-- What MergeUsers does when it returns no error, from a balanced ledger and for two different
-- users: the source is gone, no row of any table of the model has it as its user, referrer, referee or
-- sender (device expansions, logins and account activity included), and the balances are
-- those before, except that the destination has the sum of both.
pub merge_users-sums :
    (src dst : ℕ) (w : World)
    → src ≢ dst
    → IsBalanced w.db
    → (merge_users src dst w).0 ≡ ok tt
    → (find src (merge_users src dst w).1.db.users ≡ none)
      × (is_mentioned src (merge_users src dst w).1.db ≡ false)
      × ((j : ℕ)
          → balance_of j (merge_users src dst w).1.db ≡ (
              if src == j
              then pos 0
              else if dst == j
              then balance_of dst w.db +ℤ balance_of src w.db
              else balance_of j w.db))
merge_users-sums src dst w ne b h =
    let e = (merge_users src dst w).1.db in
    let m = merged src dst w h in
    (
      rw (users-merged src dst w.db e m, find-remove) (ground arith),
      Merged-unmentioned src dst w.db e m,
      merge-balance src dst ne w.db e m b,
    )
