-- ===== src/Ledger/Statements.antt =====
-- Statements on users and the ledger rows, against the balance invariant. `adjust_yad_balance` and
-- `clawback_yad` write a balance and a ledger row by the same amount. When one of the two
-- statements fails the invariant is lost until the rollback, so they keep it on success only.
use mathlib.Core.Option
use testmellow.Prelude.{
  ℕ, ◌≡◌, refl, Option, none, some, arith, ◌==◌, if◌then◌else◌, find, find-update,
}
use testmellow.Prelude.Int.{ℤ, pos, ◌+ℤ◌, ◌≤ℤ◌, int_laws}
use testmellow.Domain.{YadTxType}
use testmellow.World.Rows.{Db, User, YadTransaction}
use testmellow.World.Exec.{World, Result, ok, err, ◌>>=◌, query, modify_db, execute}
use testmellow.World.KeepsOk.{KeepsOk}
use testmellow.Repo.Users.{
  map_user, set_balance, add_transaction, adjusted_balance, adjust_yad_balance,
}
use testmellow.Ledger.{balance_or_zero, balance_of, ledger_sum, IsBalanced}

balance_of-map_user :
    (j id : ℕ) (f : User → User) (d : Db)
    → balance_of j (map_user id f d)
      ≡ (if id == j then balance_or_zero (Option.map f (find j d.users)) else balance_of j d)
balance_of-map_user j id f d = rw find-update (ground arith)

balance-map_same :
    (f : User → User) (o : Option User)
    → ((u : User) → (f u).yad_balance ≡ u.yad_balance)
    → balance_or_zero (Option.map f o) ≡ balance_or_zero o
balance-map_same f none same = refl
balance-map_same f (some u) same = same u

-- A change of a user row that leaves the balance alone.
pub map_user-IsBalanced :
    (id : ℕ) (f : User → User) (d : Db)
    → ((u : User) → (f u).yad_balance ≡ u.yad_balance)
    → IsBalanced d
    → IsBalanced (map_user id f d)
map_user-IsBalanced id f d same b = record {
  backed = λ j.
      ground
        (arith, balance_of-map_user j id f d, balance-map_same f (find j d.users) same, b.backed j);
  solvent = λ j.
      ground (
        arith,
        balance_of-map_user j id f d,
        balance-map_same f (find j d.users) same,
        b.solvent j,
      );
}

pub balance_of-set_balance :
    (j id : ℕ) (x : ℤ) {u : User} (d : Db)
    → find id d.users ≡ some u
    → balance_of j (set_balance id x d) ≡ (if id == j then x else balance_of j d)
balance_of-set_balance j id x d e =
    ground (arith, balance_of-map_user j id (λ u. record u { yad_balance = x }) d)

-- A balance and a ledger row that move by the same amount.
pub posting-IsBalanced :
    (id : ℕ) (x : ℤ) (t : YadTransaction) {u : User} (d : Db)
    → find id d.users ≡ some u
    → t.user_id ≡ id
    → x ≡ u.yad_balance +ℤ t.delta
    → pos 0 ≤ℤ x
    → IsBalanced d
    → IsBalanced (add_transaction t (set_balance id x d))
unfolding ledger_sum
posting-IsBalanced id x t d e same moved enough b = record {
  backed = λ j. grind (int_laws, balance_of-set_balance j id x d e, b.backed j);
  solvent = λ j. grind (int_laws, balance_of-set_balance j id x d e, b.solvent j);
}

-- The balance that the guarded UPDATE gives is the old one moved by the amount, and not negative.
pub adjusted_balance-ok :
    (delta : ℤ) (o : Option User) (x : ℤ)
    → adjusted_balance delta o ≡ ok x
    → (u : User) × (o ≡ some u) × (x ≡ u.yad_balance +ℤ delta) × (pos 0 ≤ℤ x)
unfolding adjusted_balance
adjusted_balance-ok delta none x h = cc
adjusted_balance-ok delta (some u) x h = (u, refl, ground arith, ground arith)

adjust-posts :
    (id : ℕ) (delta : ℤ) (ty : YadTxType) (ref_id : Option ℕ) (x : ℤ) (d : Db)
    → adjusted_balance delta (find id d.users) ≡ ok x
    → IsBalanced d
    → IsBalanced (
        add_transaction
          (record { user_id = id; delta = delta; balance = x; tx_type = ty; ref_id = ref_id })
          (set_balance id x d))
adjust-posts id delta ty ref_id x d h b =
    let (u, e, moved, enough) = adjusted_balance-ok delta (find id d.users) x h in
    posting-IsBalanced id x _ d e refl moved enough b

pub adjust_yad_balance-IsBalanced :
    (id : ℕ) (delta : ℤ) (ty : YadTxType) (ref_id : Option ℕ)
    → KeepsOk IsBalanced (adjust_yad_balance id delta ty ref_id)
unfolding adjust_yad_balance ◌>>=◌ query execute modify_db
adjust_yad_balance-IsBalanced id delta ty ref_id = record {
  at = λ w b a h. step w b a (adjusted_balance delta (find id w.db.users)) refl h;
}
  where
    step :
        (w : World)
        → IsBalanced w.db
        → (a : Unit {0}) → (r : Result ℤ) → adjusted_balance delta (find id w.db.users) ≡ r
        → (adjust_yad_balance id delta ty ref_id w).0 ≡ ok a
        → IsBalanced (adjust_yad_balance id delta ty ref_id w).1.db
    step w b a (ok x) e h = ground (arith, adjust-posts id delta ty ref_id x w.db e b)
    step w b a (err c) e h = ground arith
