-- ===== src/World/Makes.antt =====
-- What holds of the database after an action that returns no error.
use testmellow.Prelude.{◌≡◌, refl, Bool, true, false, Option, none, some, if◌then◌else◌}
use testmellow.World.Rows.{Db}
use testmellow.World.Exec.{
  Error, Result, ok, err, World, Exec, raise, atomically, ◌>>=◌, on_option, transaction,
}
use testmellow.World.Keeps.{Keeps, Keeps-remote, Keeps-pure, Keeps-bind}

pub record Makes {A : Type 0} (Q : Db → Type 0) (m : Exec A) : Type 0 where
  pub at : (w : World) (a : A) → (m w).0 ≡ ok a → Q (m w).1.db

module _ {A : Type 0} {Q : Db → Type 0} where
  pub Makes-raise : (e : Error) → Makes Q (raise {A = A} e)
  unfolding raise
  Makes-raise e = record { at = λ w a h. cc }

  pub Makes-if : (b : Bool) (m n : Exec A) → Makes Q m → Makes Q n → Makes Q (if b then m else n)
  Makes-if true m n p q = p
  Makes-if false m n p q = q

  pub Makes-atomically : (m : Exec A) → Makes Q m → Makes Q (atomically m)
  unfolding atomically
  Makes-atomically m k = record { at = λ w. step w (m w) (k.at w) }
    where
      step :
          (w : World) (r : Result A × World)
          → ((a : A) → r.0 ≡ ok a → Q r.1.db)
          → (a : A) → (atomically (λ _. r) w).0 ≡ ok a
          → Q (atomically (λ _. r) w).1.db
      step w (ok b, w') q a h = q b refl
      step w (err e, w') q a h = cc

module _ {A B : Type 0} {Q : Db → Type 0} where
  -- The rest makes it.
  pub Makes-bind : (m : Exec A) (f : A → Exec B) → ((a : A) → Makes Q (f a)) → Makes Q (m >>= f)
  unfolding ◌>>=◌
  Makes-bind m f k = record { at = λ w. step (m w) }
    where
      step :
          (r : Result A × World) (b : B)
          → (◌>>=◌ (λ _. r) f r.1).0 ≡ ok b
          → Q (◌>>=◌ (λ _. r) f r.1).1.db
      step (ok a, w') b h = (k a).at w' b h
      step (err e, w') b h = cc

  -- The first action makes it, and the rest keeps it.
  pub Makes-bind_Keeps :
      (m : Exec A) (f : A → Exec B) → Makes Q m → ((a : A) → Keeps Q (f a)) → Makes Q (m >>= f)
  unfolding ◌>>=◌
  Makes-bind_Keeps m f k l = record { at = λ w. step (m w) (k.at w) }
    where
      step :
          (r : Result A × World)
          → ((a : A) → r.0 ≡ ok a → Q r.1.db)
          → (b : B) → (◌>>=◌ (λ _. r) f r.1).0 ≡ ok b
          → Q (◌>>=◌ (λ _. r) f r.1).1.db
      step (ok a, w') q b h = (l a).at w' (q a refl)
      step (err e, w') q b h = cc

  pub Makes-on_option :
      (o : Option A) (m : Exec B) (f : A → Exec B)
      → Makes Q m
      → ((a : A) → Makes Q (f a))
      → Makes Q (on_option o m f)
  unfolding on_option
  Makes-on_option none m f p q = p
  Makes-on_option (some a) m f p q = q a

module _ {A : Type 0} {Q : Db → Type 0} where
  pub Makes-transaction : (m : Exec A) → Makes Q m → Makes Q (transaction m)
  unfolding transaction
  Makes-transaction m k = Makes-atomically _ (
      Makes-bind _ _
        (λ _. Makes-bind_Keeps _ _ k (λ a. search (Keeps-remote, Keeps-pure, Keeps-bind))))

pub ruleset makes_rules =
    (Makes-raise, Makes-if, Makes-bind, Makes-bind_Keeps, Makes-on_option, Makes-transaction)
