-- ===== src/Ledger.antt =====
-- The YAD ledger (`yad_transactions`) against the balances: what every money movement must keep.
pub mod Statements
pub mod Clawback
pub mod Users
pub mod Tables
pub mod Profiles
use testmellow.Prelude.{ℕ, ◌≡◌, Option, none, some, List, [], ◌∷◌, ◌==◌, if◌then◌else◌, Table, find}
use testmellow.Prelude.Int.{ℤ, pos, ◌+ℤ◌, ◌≤ℤ◌}
use testmellow.World.Rows.{Db, User, YadTransaction}

-- The balance of a user; an unknown user has none.
abbrev pub balance_or_zero : Option User → ℤ
balance_or_zero none = pos 0
balance_or_zero (some u) = u.yad_balance

abbrev pub balance_of : ℕ → Db → ℤ
balance_of id d = balance_or_zero (find id d.users)

-- The sum of a user's ledger rows.
unfoldable pub ledger_sum : ℕ → List YadTransaction → ℤ
ledger_sum id [] = pos 0
ledger_sum id (t ∷ ts) =
    let rest = ledger_sum id ts in if t.user_id == id then t.delta +ℤ rest else rest

-- Every balance is the sum of its ledger rows, and none is negative.
pub record IsBalanced (d : Db) : Type 0 where
  pub backed : (id : ℕ) → balance_of id d ≡ ledger_sum id d.yad_transactions
  pub solvent : (id : ℕ) → pos 0 ≤ℤ balance_of id d
