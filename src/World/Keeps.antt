-- ===== src/World/Keeps.antt =====
-- Invariants of the database, with a rule for each way to build an action. An action that only
-- reads keeps every invariant.
use testmellow.Prelude.{
  ℕ, zero, suc, ◌≡◌, refl, Bool, true, false, Option, none, some, List, [], ◌∷◌, if◌then◌else◌,
}
use testmellow.World.Rows.{Db, Job, RemnaCall}
use testmellow.World.Exec.{
  Error, Result, ok, err, World, Exec, pure, raise, gets, lift, attempt, atomically, ◌>>=◌,
  on_option, on_result, remote, fail_if, when, for_each, query, modify_db, execute, now, new_id,
  enqueue, log_call, remna, transaction, ignore, retry, retry_on,
}

pub record Keeps {A : Type 0} (Q : Db → Type 0) (m : Exec A) : Type 0 where
  pub at : (w : World) → Q w.db → Q (m w).1.db

module _ {A : Type 0} {Q : Db → Type 0} where
  pub Keeps-pure : (a : A) → Keeps Q (pure a)
  unfolding pure
  Keeps-pure a = record { at = λ w h. h }

  pub Keeps-raise : (e : Error) → Keeps Q (raise {A = A} e)
  unfolding raise
  Keeps-raise e = record { at = λ w h. h }

  pub Keeps-gets : (f : World → A) → Keeps Q (gets f)
  unfolding gets
  Keeps-gets f = record { at = λ w h. h }

  pub Keeps-lift : (r : Result A) → Keeps Q (lift r)
  unfolding lift
  Keeps-lift r = record { at = λ w h. h }

  pub Keeps-attempt : (m : Exec A) → Keeps Q m → Keeps Q (attempt m)
  unfolding attempt
  Keeps-attempt m k = record { at = k.at }

  pub Keeps-atomically : (m : Exec A) → Keeps Q m → Keeps Q (atomically m)
  unfolding atomically
  Keeps-atomically m k = record { at = λ w h. step w h (m w) (k.at w h) }
    where
      step :
          (w : World) → Q w.db → (r : Result A × World) → Q r.1.db → Q (atomically (λ _. r) w).1.db
      step w h (ok a, w') q = q
      step w h (err e, w') q = h

  pub Keeps-if :
      (b : Bool) (m n : Exec A)
      → (b ≡ true → Keeps Q m)
      → (b ≡ false → Keeps Q n)
      → Keeps Q (if b then m else n)
  Keeps-if true m n k l = k refl
  Keeps-if false m n k l = l refl

module _ {Q : Db → Type 0} where
  pub Keeps-remote : Keeps Q remote
  unfolding remote
  Keeps-remote = record { at = λ w h. h }

  pub Keeps-now : Keeps Q now
  unfolding now
  Keeps-now = record { at = λ w h. h }

  pub Keeps-new_id : Keeps Q new_id
  unfolding new_id
  Keeps-new_id = record { at = λ w h. h }

  pub Keeps-modify_db : (f : Db → Db) → ((d : Db) → Q d → Q (f d)) → Keeps Q (modify_db f)
  unfolding modify_db
  Keeps-modify_db f k = record { at = λ w h. k w.db h }

  pub Keeps-fail_if : (b : Bool) (e : Error) → Keeps Q (fail_if b e)
  unfolding fail_if
  Keeps-fail_if true e = Keeps-raise e
  Keeps-fail_if false e = Keeps-pure tt

  pub Keeps-when : (b : Bool) (m : Exec (Unit {0})) → (b ≡ true → Keeps Q m) → Keeps Q (when b m)
  unfolding when
  Keeps-when true m k = k refl
  Keeps-when false m k = Keeps-pure tt

module _ {A B : Type 0} {Q : Db → Type 0} where
  -- The rest may use that `r` is no error.
  pub Keeps-bind-lift :
      (r : Result A) (f : A → Exec B)
      → ((a : A) → r ≡ ok a → Keeps Q (f a))
      → Keeps Q (lift r >>= f)
  unfolding ◌>>=◌
  Keeps-bind-lift (ok a) f k = record { at = (k a refl).at }
  Keeps-bind-lift (err e) f k = record { at = λ w h. h }

  pub Keeps-bind :
      (m : Exec A) (f : A → Exec B) → Keeps Q m → ((a : A) → Keeps Q (f a)) → Keeps Q (m >>= f)
  unfolding ◌>>=◌
  Keeps-bind m f k l = record {
    at = λ w h. (Keeps-bind-lift (m w).0 f (λ a _. l a)).at (m w).1 (k.at w h);
  }

  pub Keeps-on_option :
      (o : Option A) (m : Exec B) (f : A → Exec B)
      → Keeps Q m
      → ((a : A) → Keeps Q (f a))
      → Keeps Q (on_option o m f)
  unfolding on_option
  Keeps-on_option none m f k l = k
  Keeps-on_option (some a) m f k l = l a

  pub Keeps-on_result :
      (r : Result A) (m : Error → Exec B) (f : A → Exec B)
      → ((e : Error) → Keeps Q (m e))
      → ((a : A) → Keeps Q (f a))
      → Keeps Q (on_result r m f)
  unfolding on_result
  Keeps-on_result (ok a) m f k l = l a
  Keeps-on_result (err e) m f k l = k e

module _ {A : Type 0} {Q : Db → Type 0} where
  pub Keeps-query : (f : Db → A) → Keeps Q (query f)
  unfolding query
  Keeps-query f = Keeps-bind _ _ Keeps-remote (λ _. Keeps-gets _)

  pub Keeps-for_each :
      (xs : List A) (f : A → Exec (Unit {0})) → ((a : A) → Keeps Q (f a)) → Keeps Q (for_each xs f)
  unfolding for_each
  Keeps-for_each [] f k = Keeps-pure tt
  Keeps-for_each (x ∷ xs) f k = Keeps-bind _ _ (k x) (λ _. Keeps-for_each xs f k)

  pub Keeps-transaction : (m : Exec A) → Keeps Q m → Keeps Q (transaction m)
  unfolding transaction
  Keeps-transaction m k = Keeps-atomically _ (
      Keeps-bind _ _ Keeps-remote
        (λ _. Keeps-bind _ _ k (λ a. Keeps-bind _ _ Keeps-remote (λ _. Keeps-pure a))))

  pub Keeps-ignore : (m : Exec A) → Keeps Q m → Keeps Q (ignore m)
  unfolding ignore
  Keeps-ignore m k = Keeps-bind _ _ (Keeps-attempt m k) (λ _. Keeps-pure tt)

  Keeps-retry_on : (m : Exec A) → Keeps Q m → (r : Result A) → Keeps Q (retry_on m r)
  Keeps-retry_on m k (ok a) = Keeps-pure a
  Keeps-retry_on m k (err Error.serialization_failure) = k
  Keeps-retry_on m k (err e) = Keeps-raise e

  pub Keeps-retry : (n : ℕ) (m : Exec A) → Keeps Q m → Keeps Q (retry n m)
  unfolding retry
  Keeps-retry zero m k = k
  Keeps-retry (suc n) m k =
      Keeps-bind _ _ (Keeps-attempt m k) (Keeps-retry_on _ (Keeps-retry n m k))

module _ {Q : Db → Type 0} where
  pub Keeps-execute : (f : Db → Db) → ((d : Db) → Q d → Q (f d)) → Keeps Q (execute f)
  unfolding execute
  Keeps-execute f k = Keeps-bind _ _ Keeps-remote (λ _. Keeps-modify_db f k)

  pub Keeps-enqueue : (j : Job) → Keeps Q (enqueue j)
  unfolding enqueue
  Keeps-enqueue j = Keeps-bind _ _ Keeps-remote (λ _. record { at = λ w h. h })

  pub Keeps-remna : (c : RemnaCall) → Keeps Q (remna c)
  unfolding remna
  Keeps-remna c =
      Keeps-bind _ _ Keeps-remote
        (λ n. Keeps-bind (log_call c) (λ _. pure n) (record { at = λ w h. h }) (λ _. Keeps-pure n))

-- An action that reads keeps whatever holds of the database.
pub ruleset reads_rules = (
  Keeps-pure, Keeps-raise, Keeps-gets, Keeps-lift, Keeps-attempt, Keeps-if, Keeps-remote, Keeps-now,
  Keeps-new_id, Keeps-fail_if, Keeps-when, Keeps-bind, Keeps-on_option, Keeps-on_result,
  Keeps-query, Keeps-for_each, Keeps-enqueue, Keeps-remna, Keeps-ignore,
)

pub ruleset keeps_rules =
    (reads_rules, Keeps-transaction, Keeps-retry, Keeps-execute, Keeps-modify_db)
