-- ===== src/Repo/Merge.antt =====
-- user_repo.go: `MergeUsers`, one transaction of statements with the constraints that PostgreSQL
-- checks at the end of each. The tables that the model has no rows of (devices, risk events,
-- the audit log, notifications, authors of codes) are statements that may fail.
pub mod Statements
pub mod Deletion
pub mod Rows
pub mod Runs
pub mod Balance
pub mod Complete
pub mod Succeeds
use testmellow.Prelude.{ℕ, Bool, ◌&&◌, ◌||◌, not, Option, none, some, List, [], ◌∷◌, ◌++◌, find}
use testmellow.Prelude.Int.{◌+ℤ◌, in_int64}
use testmellow.World.Rows.{Db, User}
use testmellow.World.Exec.{
  Error, Exec, raise, ◌>>=◌, on_option, query, modify_db, for_each, transaction,
}
use testmellow.Repo.Users.{map_user}
use testmellow.Repo.Merge.Statements.{Statement, refuse, reassign}
use testmellow.Repo.Merge.Deletion.{referral_clean_up, deletion}

unfoldable pub run_statement : Statement → Exec (Unit {0})
run_statement s = do e ← query s.refused; on_option e (modify_db s.change) raise

-- 2. The balance and the total are BIGINT columns.
abbrev pub with_account : User → User → User
with_account u v = record v {
  yad_balance = v.yad_balance +ℤ u.yad_balance;
  ltv = v.ltv +ℤ u.ltv;
  trial_used = v.trial_used || u.trial_used;
}

abbrev pub overflows : User → Option User → Bool
overflows u none = Bool.false
overflows u (some v) = not (in_int64 (v.yad_balance +ℤ u.yad_balance) && in_int64 (v.ltv +ℤ u.ltv))

abbrev pub account_moved : ℕ → User → Statement
account_moved dst u = record {
  refused = λ d. refuse (overflows u (find dst d.users)) Error.out_of_range;
  change = map_user dst (with_account u);
}

-- 2. to 12.
unfoldable pub merge_statements : (src dst : ℕ) → User → List Statement
merge_statements src dst u =
    account_moved dst u ∷ reassign src dst ++ referral_clean_up src dst ++ deletion src dst

unfoldable pub merge_users : (src dst : ℕ) → Exec (Unit {0})
unfolding run_statement
merge_users src dst = transaction do
  row ← query (λ d. find src d.users)
  on_option row (raise Error.user_not_found)
      λ u. for_each (merge_statements src dst u) run_statement
