-- ===== src/Tests/Merges.antt =====
-- Runs of a merge of accounts.
use testmellow.Prelude.{
  ℕ, ◌≡◌, refl, true, false, none, some, [], ◌∷◌, arith, ◌==◌, Bool-cases, inl, inr, if◌then◌else◌,
  find, is_some,
}
use testmellow.Prelude.Int.{pos, ◌+ℤ◌, ◌≤ℤ◌, int_laws}
use testmellow.World.Rows.{User, Db}
use testmellow.World.Exec.{World, ok}
use testmellow.Ledger.{balance_of, ledger_sum, IsBalanced}
use testmellow.Repo.Merge.{merge_users, overflows}
use testmellow.Repo.Merge.Statements.{both_expanded}
use testmellow.Repo.Merge.Deletion.{is_mentioned}
use testmellow.Repo.Merge.Complete.{merge_users-sums}
use testmellow.Repo.Merge.Succeeds.{merge_users-ok}
use testmellow.Tests.Worlds.{alice, shop_db, sunny}

-- A second user, with no YAD, whom the first referred.
abbrev bob : User
bob = record alice {
  telegram_id = some 55;
  username = some 21;
  yad_balance = pos 0;
  referrer_id = some 1;
  referral_code = 23;
}

abbrev two_db : Db
two_db = record shop_db { users = (1, alice) ∷ (2, bob) ∷ [] }

abbrev two_users : World
two_users = record sunny { db = two_db }

two_db-IsBalanced : IsBalanced two_db
unfolding ledger_sum find ◌+ℤ◌
two_db-IsBalanced = record { backed = λ id. ground arith; solvent = λ id. solvent id }
  where
    solvent : (id : ℕ) → pos 0 ≤ℤ balance_of id two_db
    solvent id = elim (Bool-cases (1 == id)) [
      | inl p ↦ rw p (omega int_laws)
      | inr n ↦ elim (Bool-cases (2 == id)) [
        | inl p ↦ rw (n, p) (omega int_laws)
        | inr m ↦ rw (n, m) (omega int_laws)
      ]
    ]

first_found : find 1 two_db.users ≡ some alice
unfolding find
first_found = refl

second_found : is_some (find 2 two_db.users) ≡ true
unfolding find
second_found = refl

fits : overflows alice (find 2 two_db.users) ≡ false
unfolding find ◌+ℤ◌
fits = refl

not_expanded : both_expanded 1 2 two_db ≡ false
unfolding find
not_expanded = refl

merge_users-ok_example : (merge_users 1 2 (record two_users { outcomes = [] })).0 ≡ ok tt
merge_users-ok_example =
    merge_users-ok 1 2 alice two_users (omega arith) first_found second_found fits refl not_expanded

merge_users-sums_example :
    (find 1 (merge_users 1 2 two_users).1.db.users ≡ none)
    × (is_mentioned 1 (merge_users 1 2 two_users).1.db ≡ false)
    × ((j : ℕ)
        → balance_of j (merge_users 1 2 two_users).1.db ≡ (
            if 1 == j
            then pos 0
            else if 2 == j
            then balance_of 2 two_db +ℤ balance_of 1 two_db
            else balance_of j two_db))
merge_users-sums_example =
    merge_users-sums 1 2 two_users (omega arith) two_db-IsBalanced merge_users-ok_example
