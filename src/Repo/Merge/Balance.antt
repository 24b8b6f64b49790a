-- ===== src/Repo/Merge/Balance.antt =====
-- A merge moves the balance and the ledger rows together.
use mathlib.Core.Option
use testmellow.Prelude.{
  ℕ, ◌≡◌, ◌≢◌, refl, ap, Bool, true, false, ◌&&◌, not, Option, none, some, List, [], ◌∷◌, arith,
  Option-cases, Bool-cases, inl, inr, ◌==◌, if◌then◌else◌, find, find-update, find-remove, exists,
  Table, update, update_others, remove, map_where,
}
use testmellow.Prelude.Int.{ℤ, pos, ◌+ℤ◌, +ℤ_assoc, int_laws, ◌≤ℤ◌}
use testmellow.World.Rows.{Db, User, YadTransaction}
use testmellow.Ledger.{balance_or_zero, balance_of, ledger_sum, IsBalanced}
use testmellow.Repo.Accounts.{equals}
use testmellow.Repo.Merge.{with_account, merge_statements}
use testmellow.Repo.Merge.Statements.{reassign}
use testmellow.Repo.Merge.Deletion.{referral_clean_up, deletion, without_referrer}
use testmellow.Repo.Merge.Runs.{Merged}

module _ {V : Type 0} where
  pub find-update_others :
      (k j : ℕ) (p : V → Bool) (f : V → V) (t : Table V)
      → find j (update_others k p f t)
        ≡ Option.map (λ v. if p v && not (j == k) then f v else v) (find j t)
  unfolding find update_others
  find-update_others k j p f [] = refl
  find-update_others k j p f ((i, v) ∷ t) = ground (arith, find-update_others k j p f t)

-- The users after a merge.
abbrev pub users_merged : (src dst : ℕ) → User → Table User → Table User
users_merged src dst u t = remove src (
    update src (λ v. record v { telegram_id = none })
      (update dst (without_referrer src) (
        update_others dst (λ v. equals v.referrer_id src) (λ v. record v { referrer_id = some dst })
          (update dst (with_account u) t))))

abbrev moved : (src dst : ℕ) → List YadTransaction → List YadTransaction
moved src dst ts = map_where (λ t. t.user_id == src) (λ t. record t { user_id = dst }) ts

balance-map :
    (f : User → User) (o : Option User)
    → ((v : User) → (f v).yad_balance ≡ v.yad_balance)
    → balance_or_zero (Option.map f o) ≡ balance_or_zero o
balance-map f none same = refl
balance-map f (some v) same = same v

module _ (src dst : ℕ) (u : User) where
  pub balance-users_merged :
      (j : ℕ) (t : Table User)
      → balance_or_zero (find j (users_merged src dst u t)) ≡ (
          if src == j
          then pos 0
          else if dst == j
          then balance_or_zero (Option.map (with_account u) (find j t))
          else balance_or_zero (find j t))
  balance-users_merged j t = elim (Option-cases (find j t)) [
    | inl n ↦
        rw (find-remove, find-update, find-update, find-update_others, find-update, n)
          (ground arith)
    | inr (v, e) ↦
        rw (find-remove, find-update, find-update, find-update_others, find-update, e)
          (ground arith)
  ]

add_swap : (a b c : ℤ) → a +ℤ (b +ℤ c) ≡ b +ℤ (a +ℤ c)
add_swap a b c = omega int_laws

sum_solvent : (a b : ℤ) → pos 0 ≤ℤ a → pos 0 ≤ℤ b → pos 0 ≤ℤ a +ℤ b
sum_solvent a b p q = omega int_laws

zero_add : pos 0 ≡ pos 0 +ℤ pos 0
unfolding ◌+ℤ◌
zero_add = refl

module _ (src dst : ℕ) (ne : src ≢ dst) where
  ledger_sum-source : (ts : List YadTransaction) → ledger_sum src (moved src dst ts) ≡ pos 0
  unfolding map_where ledger_sum
  ledger_sum-source [] = refl
  ledger_sum-source (t ∷ ts) = ground (arith, ledger_sum-source ts, ne)

  ledger_sum-target :
      (ts : List YadTransaction)
      → ledger_sum dst (moved src dst ts) ≡ ledger_sum dst ts +ℤ ledger_sum src ts
  unfolding map_where ledger_sum
  ledger_sum-target [] = zero_add
  ledger_sum-target (t ∷ ts) =
      let d = ledger_sum dst ts in
      let s = ledger_sum src ts in
      ground (arith, ledger_sum-target ts, ne, add_swap t.delta d s, +ℤ_assoc t.delta d s)

  ledger_sum-other :
      (j : ℕ) (ts : List YadTransaction)
      → (src == j) ≡ false
      → (dst == j) ≡ false
      → ledger_sum j (moved src dst ts) ≡ ledger_sum j ts
  unfolding map_where ledger_sum
  ledger_sum-other j [] p q = refl
  ledger_sum-other j (t ∷ ts) p q = ground (arith, ledger_sum-other j ts p q)

module _ (src dst : ℕ) (d e : Db) (m : Merged src dst d e) where
  pub users-merged : e.users ≡ users_merged src dst m.source d.users
  unfolding merge_statements reassign referral_clean_up deletion
  users-merged = ap (λ (x : Db). x.users) m.result

  transactions-merged : e.yad_transactions ≡ moved src dst d.yad_transactions
  unfolding merge_statements reassign referral_clean_up deletion
  transactions-merged = ap (λ (x : Db). x.yad_transactions) m.result

  target-exists :
      exists (λ t. t.user_id == src) d.yad_transactions ≡ true
      → (v : User) × (find dst d.users ≡ some v)
  unfolding merge_statements reassign
  target-exists h = elim (Option-cases (find dst d.users)) [
    | inl n ↦
        absurd (
          ground
            (arith, h, n, find-update dst dst (with_account m.source) d.users, m.clear.1.1.1.0))
    | inr x ↦ x
  ]

ledger_sum-no_rows :
    (id : ℕ) (ts : List YadTransaction)
    → exists (λ t. t.user_id == id) ts ≡ false
    → ledger_sum id ts ≡ pos 0
unfolding ledger_sum
ledger_sum-no_rows id [] h = refl
ledger_sum-no_rows id (t ∷ ts) h = ground (arith, h, ledger_sum-no_rows id ts)

module _ (src dst : ℕ) (ne : src ≢ dst) (d e : Db) (m : Merged src dst d e) (b : IsBalanced d) where
  target_sum :
      balance_or_zero (Option.map (with_account m.source) (find dst d.users))
      ≡ ledger_sum dst d.yad_transactions +ℤ ledger_sum src d.yad_transactions
  target_sum = elim (Option-cases (find dst d.users)) [
    | inl n ↦ elim (Bool-cases (exists (λ t. t.user_id == src) d.yad_transactions)) [
      | inl h ↦ let (v, f) = target-exists src dst d e m h in absurd (ground (arith, n, f))
      | inr h ↦
          ground (arith, n, b.backed dst, ledger_sum-no_rows src d.yad_transactions h, zero_add)
    ]
    | inr (v, f) ↦ rw f (ground (arith, f, m.found, b.backed dst, b.backed src))
  ]

  -- The balance of each user after the merge.
  pub merge-balance :
      (j : ℕ)
      → balance_of j e ≡ (
          if src == j
          then pos 0
          else if dst == j
          then balance_of dst d +ℤ balance_of src d
          else balance_of j d)
  merge-balance j = elim (Bool-cases (dst == j)) [
    | inl q ↦ ground (
      arith,
      users-merged src dst d e m,
      balance-users_merged src dst m.source j d.users,
      target_sum,
      b.backed dst,
      b.backed src,
      q,
    )
    | inr q ↦
        ground
          (arith, users-merged src dst d e m, balance-users_merged src dst m.source j d.users, q)
  ]

  merge-ledger :
      (j : ℕ)
      → ledger_sum j e.yad_transactions ≡ (
          if src == j
          then pos 0
          else if dst == j
          then ledger_sum dst d.yad_transactions +ℤ ledger_sum src d.yad_transactions
          else ledger_sum j d.yad_transactions)
  merge-ledger j = rw (transactions-merged src dst d e m) (elim (Bool-cases (src == j)) [
    | inl p ↦ ground (arith, p, ledger_sum-source src dst ne d.yad_transactions)
    | inr p ↦ elim (Bool-cases (dst == j)) [
      | inl q ↦ ground (arith, p, q, ledger_sum-target src dst ne d.yad_transactions)
      | inr q ↦ ground (arith, p, q, ledger_sum-other src dst ne j d.yad_transactions p q)
    ]
  ])

  pub merge-IsBalanced : IsBalanced e
  merge-IsBalanced = record {
    backed = λ j.
        ground (arith, merge-balance j, merge-ledger j, b.backed j, b.backed src, b.backed dst);
    solvent = λ j.
        ground
          (arith, merge-balance j, b.solvent j, sum_solvent _ _ (b.solvent dst) (b.solvent src));
  }
