-- ===== src/World/KeepsOk.antt =====
-- Invariants that an action keeps when it returns no error: what the body of a transaction owes,
-- since an error rolls it back.
use testmellow.Prelude.{◌≡◌, refl, Bool, true, false, Option, none, some, if◌then◌else◌}
use testmellow.World.Rows.{Db}
use testmellow.World.Exec.{
  Error, Result, ok, err, World, Exec, raise, atomically, ◌>>=◌, on_option, on_result, when,
  transaction,
}
use testmellow.World.Keeps.{Keeps, Keeps-remote, Keeps-pure}

pub record KeepsOk {A : Type 0} (Q : Db → Type 0) (m : Exec A) : Type 0 where
  pub at : (w : World) → Q w.db → (a : A) → (m w).0 ≡ ok a → Q (m w).1.db

module _ {A : Type 0} {Q : Db → Type 0} where
  pub KeepsOk-of_Keeps : (m : Exec A) → Keeps Q m → KeepsOk Q m
  KeepsOk-of_Keeps m k = record { at = λ w h a e. k.at w h }

  pub KeepsOk-raise : (e : Error) → KeepsOk Q (raise {A = A} e)
  unfolding raise
  KeepsOk-raise e = record { at = λ w h a eq. h }

  pub KeepsOk-if :
      (b : Bool) (m n : Exec A)
      → (b ≡ true → KeepsOk Q m)
      → (b ≡ false → KeepsOk Q n)
      → KeepsOk Q (if b then m else n)
  KeepsOk-if true m n k l = k refl
  KeepsOk-if false m n k l = l refl

  pub Keeps-atomically_ok : (m : Exec A) → KeepsOk Q m → Keeps Q (atomically m)
  unfolding atomically
  Keeps-atomically_ok m k = record { at = λ w h. step w h (m w) (k.at w h) }
    where
      step :
          (w : World)
          → Q w.db
          → (r : Result A × World) → ((a : A) → r.0 ≡ ok a → Q r.1.db)
          → Q (atomically (λ _. r) w).1.db
      step w h (ok a, w') q = q a refl
      step w h (err e, w') q = h

module _ {A B : Type 0} {Q : Db → Type 0} where
  pub KeepsOk-bind :
      (m : Exec A) (f : A → Exec B)
      → KeepsOk Q m
      → ((a : A) → KeepsOk Q (f a))
      → KeepsOk Q (m >>= f)
  unfolding ◌>>=◌
  KeepsOk-bind m f k l = record { at = λ w h. step (m w) (k.at w h) }
    where
      step :
          (r : Result A × World)
          → ((a : A) → r.0 ≡ ok a → Q r.1.db)
          → (b : B) → (◌>>=◌ (λ _. r) f r.1).0 ≡ ok b
          → Q (◌>>=◌ (λ _. r) f r.1).1.db
      step (ok a, w') q b e = (l a).at w' (q a refl) b e
      step (err c, w') q b e = cc

  pub KeepsOk-on_option :
      (o : Option A) (m : Exec B) (f : A → Exec B)
      → KeepsOk Q m
      → ((a : A) → o ≡ some a → KeepsOk Q (f a))
      → KeepsOk Q (on_option o m f)
  unfolding on_option
  KeepsOk-on_option none m f k l = k
  KeepsOk-on_option (some a) m f k l = l a refl

  pub KeepsOk-on_result :
      (r : Result A) (m : Error → Exec B) (f : A → Exec B)
      → ((e : Error) → KeepsOk Q (m e))
      → ((a : A) → KeepsOk Q (f a))
      → KeepsOk Q (on_result r m f)
  unfolding on_result
  KeepsOk-on_result (ok a) m f k l = l a
  KeepsOk-on_result (err e) m f k l = k e

module _ {Q : Db → Type 0} where
  pub KeepsOk-when : (b : Bool) (m : Exec (Unit {0})) → KeepsOk Q m → KeepsOk Q (when b m)
  unfolding when
  KeepsOk-when true m k = k
  KeepsOk-when false m k = KeepsOk-of_Keeps _ (Keeps-pure tt)

module _ {A : Type 0} {Q : Db → Type 0} where
  pub Keeps-transaction_ok : (m : Exec A) → KeepsOk Q m → Keeps Q (transaction m)
  unfolding transaction
  Keeps-transaction_ok m k = Keeps-atomically_ok _ (
      KeepsOk-bind _ _ (KeepsOk-of_Keeps _ Keeps-remote) (λ _. KeepsOk-bind _ _ k (λ a.
        KeepsOk-bind _ _ (KeepsOk-of_Keeps _ Keeps-remote)
          (λ _. KeepsOk-of_Keeps _ (Keeps-pure a)))))

pub ruleset ok_rules = (
  KeepsOk-raise, KeepsOk-if, KeepsOk-bind, KeepsOk-on_option, KeepsOk-on_result, KeepsOk-when,
  KeepsOk-of_Keeps,
)
