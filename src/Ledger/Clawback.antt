-- ===== src/Ledger/Clawback.antt =====
-- `ClawbackYAD` against the ledger.
use testmellow.Prelude.{ℕ, ◌≡◌, refl, true, Option, none, some, arith, find, inl, inr, Bool-cases}
use testmellow.Prelude.Int.{ℤ, pos, ◌-ℤ◌, neg, ◌≤ℤ◌, int_laws}
use testmellow.Domain.{YadTxType}
use testmellow.World.Rows.{Db, User}
use testmellow.World.Exec.{World, ok, ◌>>=◌, query, modify_db, execute, on_option}
use testmellow.World.KeepsOk.{KeepsOk}
use testmellow.Repo.Users.{set_balance, add_transaction, clawback_yad, least, is_zero}
use testmellow.Ledger.{IsBalanced}
use testmellow.Ledger.Statements.{posting-IsBalanced, balance_of-set_balance}

-- The part of the balance that a clawback takes.
pub least_bounds :
    (a b : ℤ) → pos 0 ≤ℤ a → pos 0 ≤ℤ b → (pos 0 ≤ℤ least a b) × (least a b ≤ℤ a) × (least a b ≤ℤ b)
least_bounds a b h k = ground arith

same_balance-IsBalanced :
    (id : ℕ) (x : ℤ) {u : User} (d : Db)
    → find id d.users ≡ some u
    → x ≡ u.yad_balance
    → IsBalanced d
    → IsBalanced (set_balance id x d)
same_balance-IsBalanced id x d e same b = record {
  backed = λ j. grind (int_laws, balance_of-set_balance j id x d e, b.backed j);
  solvent = λ j. grind (int_laws, balance_of-set_balance j id x d e, b.solvent j);
}

module _ (id amount : ℕ) (ref_id : Option ℕ) where
  abbrev taken : User → ℤ
  taken u = least u.yad_balance (pos amount)

  clawback-posts :
      (u : User) (d : Db)
      → find id d.users ≡ some u
      → IsBalanced d
      → IsBalanced (
          add_transaction
            (record {
              user_id = id;
              delta = neg (taken u);
              balance = u.yad_balance -ℤ taken u;
              tx_type = YadTxType.chargeback_clawback;
              ref_id = ref_id;
            })
            (set_balance id (u.yad_balance -ℤ taken u) d))
  clawback-posts u d e b =
      let (low, high, _) =
        least_bounds u.yad_balance (pos amount) (rw e at (b.solvent id)) (omega arith) in
      posting-IsBalanced id (u.yad_balance -ℤ taken u) _ d e refl (omega int_laws) (omega int_laws)
        b

  clawback-keeps :
      (u : User) (d : Db)
      → find id d.users ≡ some u
      → taken u ≡ pos 0
      → IsBalanced d
      → IsBalanced (set_balance id (u.yad_balance -ℤ taken u) d)
  clawback-keeps u d e z b = same_balance-IsBalanced id _ d e (rw z (omega int_laws)) b

  zero_of_test : (a : ℤ) → is_zero a ≡ true → a ≡ pos 0
  zero_of_test a h = ground arith

  clawback_step :
      (w : World)
      → IsBalanced w.db
      → (a : ℤ) → (o : Option User) → find id w.db.users ≡ o
      → (clawback_yad id amount ref_id w).0 ≡ ok a
      → IsBalanced (clawback_yad id amount ref_id w).1.db
  unfolding clawback_yad ◌>>=◌ query execute modify_db on_option
  clawback_step w b a none e h = ground arith
  clawback_step w b a (some u) e h = elim (Bool-cases (is_zero (taken u))) [
    | inl z ↦ ground (arith, clawback-keeps u w.db e (zero_of_test (taken u) z) b)
    | inr n ↦ ground (arith, clawback-posts u w.db e b)
  ]

  pub clawback_yad-IsBalanced : KeepsOk IsBalanced (clawback_yad id amount ref_id)
  clawback_yad-IsBalanced = record {
    at = λ w b a h. clawback_step w b a (find id w.db.users) refl h;
  }
