-- ===== src/World/Atomic.antt =====
-- Actions that are atomic on the database: an error leaves it as it was.
use testmellow.Prelude.{
  ℕ, zero, suc, ◌≡◌, refl, ◌∙◌, Bool, true, false, Option, none, some, if◌then◌else◌,
}
use testmellow.World.Rows.{Db}
use testmellow.World.Exec.{
  Error, Result, ok, err, World, Exec, pure, raise, attempt, atomically, ◌>>=◌, on_option,
  on_result, transaction, ignore, retry, retry_on, gets, when,
}
use testmellow.World.Keeps.{Keeps}

pub record IsAtomic {A : Type 0} (m : Exec A) : Type 0 where
  pub at : (w : World) (e : Error) → (m w).0 ≡ err e → (m w).1.db ≡ w.db

-- The action never fails, so what it writes needs no rollback.
pub record Succeeds {A : Type 0} (m : Exec A) : Type 0 where
  pub at : (w : World) → (r : A) × ((m w).0 ≡ ok r)

module _ {A : Type 0} where
  pub IsAtomic-of_reads : (m : Exec A) → ((Q : Db → Type 0) → Keeps Q m) → IsAtomic m
  IsAtomic-of_reads m k = record { at = λ w e h. (k (λ d. d ≡ w.db)).at w refl }

  pub IsAtomic-of_Succeeds : (m : Exec A) → Succeeds m → IsAtomic m
  IsAtomic-of_Succeeds m s = record { at = λ w e h. cc (h, (s.at w).1) }

  pub IsAtomic-atomically : (m : Exec A) → IsAtomic (atomically m)
  unfolding atomically
  IsAtomic-atomically m = record { at = λ w e h. step w e (m w) h }
    where
      step :
          (w : World) (e : Error) (r : Result A × World)
          → (atomically (λ _. r) w).0 ≡ err e
          → (atomically (λ _. r) w).1.db ≡ w.db
      step w e (ok a, w') h = cc
      step w e (err c, w') h = refl

  pub IsAtomic-transaction : (m : Exec A) → IsAtomic (transaction m)
  unfolding transaction
  IsAtomic-transaction m = IsAtomic-atomically _

  pub IsAtomic-if :
      (b : Bool) (m n : Exec A) → IsAtomic m → IsAtomic n → IsAtomic (if b then m else n)
  IsAtomic-if true m n p q = p
  IsAtomic-if false m n p q = q

  pub Succeeds-pure : (a : A) → Succeeds (pure a)
  unfolding pure
  Succeeds-pure a = record { at = λ w. (a, refl) }

  pub Succeeds-gets : (f : World → A) → Succeeds (gets f)
  unfolding gets
  Succeeds-gets f = record { at = λ w. (f w, refl) }

  pub Succeeds-attempt : (m : Exec A) → Succeeds (attempt m)
  unfolding attempt
  Succeeds-attempt m = record { at = λ w. ((m w).0, refl) }

  pub Succeeds-if :
      (b : Bool) (m n : Exec A) → Succeeds m → Succeeds n → Succeeds (if b then m else n)
  Succeeds-if true m n p q = p
  Succeeds-if false m n p q = q

module _ {A B : Type 0} where
  -- Reads first, then one atomic action.
  pub IsAtomic-bind :
      (m : Exec A) (f : A → Exec B)
      → ((Q : Db → Type 0) → Keeps Q m)
      → ((a : A) → IsAtomic (f a))
      → IsAtomic (m >>= f)
  unfolding ◌>>=◌
  IsAtomic-bind m f k p = record { at = λ w e h. step (m w) e ((k (λ d. d ≡ w.db)).at w refl) h }
    where
      step :
          {d : Db} (r : Result A × World) (e : Error)
          → r.1.db ≡ d
          → (◌>>=◌ (λ _. r) f r.1).0 ≡ err e
          → (◌>>=◌ (λ _. r) f r.1).1.db ≡ d
      step (ok a, w') e same h = (p a).at w' e h ∙ same
      step (err c, w') e same h = same

  -- One atomic action, then best-effort steps.
  pub IsAtomic-bind_Succeeds :
      (m : Exec A) (f : A → Exec B) → IsAtomic m → ((a : A) → Succeeds (f a)) → IsAtomic (m >>= f)
  unfolding ◌>>=◌
  IsAtomic-bind_Succeeds m f p s = record { at = λ w e h. step (m w) e (p.at w) h }
    where
      step :
          {d : Db} (r : Result A × World) (e : Error)
          → ((c : Error) → r.0 ≡ err c → r.1.db ≡ d)
          → (◌>>=◌ (λ _. r) f r.1).0 ≡ err e
          → (◌>>=◌ (λ _. r) f r.1).1.db ≡ d
      step (ok a, w') e q h = cc (h, ((s a).at w').1)
      step (err c, w') e q h = q c refl

  pub Succeeds-bind :
      (m : Exec A) (f : A → Exec B) → Succeeds m → ((a : A) → Succeeds (f a)) → Succeeds (m >>= f)
  unfolding ◌>>=◌
  Succeeds-bind m f p s = record { at = λ w. step (m w) (p.at w).0 (p.at w).1 }
    where
      step :
          (r : Result A × World) (a : A) → r.0 ≡ ok a → (b : B) × ((◌>>=◌ (λ _. r) f r.1).0 ≡ ok b)
      step (ok a', w') a h = (s a').at w'
      step (err c, w') a h = cc

  pub IsAtomic-on_option :
      (o : Option A) (m : Exec B) (f : A → Exec B)
      → IsAtomic m
      → ((a : A) → IsAtomic (f a))
      → IsAtomic (on_option o m f)
  unfolding on_option
  IsAtomic-on_option none m f p q = p
  IsAtomic-on_option (some a) m f p q = q a

  pub Succeeds-on_option :
      (o : Option A) (m : Exec B) (f : A → Exec B)
      → Succeeds m
      → ((a : A) → Succeeds (f a))
      → Succeeds (on_option o m f)
  unfolding on_option
  Succeeds-on_option none m f p q = p
  Succeeds-on_option (some a) m f p q = q a

  pub Succeeds-on_result :
      (r : Result A) (m : Error → Exec B) (f : A → Exec B)
      → ((e : Error) → Succeeds (m e))
      → ((a : A) → Succeeds (f a))
      → Succeeds (on_result r m f)
  unfolding on_result
  Succeeds-on_result (ok a) m f p q = q a
  Succeeds-on_result (err e) m f p q = p e

module _ {A : Type 0} where
  pub Succeeds-ignore : (m : Exec A) → Succeeds (ignore m)
  unfolding ignore
  Succeeds-ignore m = Succeeds-bind _ _ (Succeeds-attempt m) (λ _. Succeeds-pure tt)

  retry_on_same :
      (m : Exec A) {d : Db} (r : Result A × World) (e : Error)
      → IsAtomic m
      → ((c : Error) → r.0 ≡ err c → r.1.db ≡ d)
      → (retry_on m r.0 r.1).0 ≡ err e
      → (retry_on m r.0 r.1).1.db ≡ d
  unfolding pure raise
  retry_on_same m (ok a, w') e p q h = cc
  retry_on_same m (err Error.serialization_failure, w') e p q h = p.at w' e h ∙ q _ refl
  retry_on_same m (err c, w') e p q h = q c refl

  -- A failed attempt leaves the database alone, so the next one starts from the same state.
  pub IsAtomic-retry : (n : ℕ) (m : Exec A) → IsAtomic m → IsAtomic (retry n m)
  unfolding retry
  IsAtomic-retry zero m p = p
  IsAtomic-retry (suc n) m p = record {
    at = λ w e h. retry_on_same (retry n m) (m w) e (IsAtomic-retry n m p) (p.at w) h;
  }

pub Succeeds-when : (b : Bool) (m : Exec (Unit {0})) → Succeeds m → Succeeds (when b m)
unfolding when
Succeeds-when true m p = p
Succeeds-when false m p = Succeeds-pure tt

pub ruleset succeeds_rules = (
  Succeeds-when, Succeeds-pure, Succeeds-gets, Succeeds-attempt, Succeeds-if, Succeeds-bind,
  Succeeds-on_option, Succeeds-on_result, Succeeds-ignore,
)
