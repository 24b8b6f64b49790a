-- ===== src/World/Adds.antt =====
-- What an action puts on the worker's queue: nothing, or at most one job of a kind.
use testmellow.Prelude.{
  arith, ◌≡◌, refl, ◌∙◌, Bool, true, false, Option, none, some, ◌∷◌, if◌then◌else◌, ◌⊎◌, inl, inr,
}
use testmellow.World.Rows.{Db, Job}
use testmellow.World.Exec.{
  Error, Result, Result_cases, ok, err, World, Exec, pure, ◌>>=◌, on_option, on_result, attempt,
  query, modify_db, execute, enqueue, remote, ignore,
}
use testmellow.World.Keeps.{Keeps}

pub record Quiet {A : Type 0} (m : Exec A) : Type 0 where
  pub at : (w : World) → (m w).1.queue ≡ w.queue

module _ {A : Type 0} where
  pub Quiet-pure : (a : A) → Quiet (pure a)
  unfolding pure
  Quiet-pure a = record { at = λ w. refl }

  pub Quiet-attempt : (m : Exec A) → Quiet m → Quiet (attempt m)
  unfolding attempt
  Quiet-attempt m q = record { at = q.at }

  pub Quiet-query : (f : Db → A) → Quiet (query f)
  unfolding query ◌>>=◌ remote
  Quiet-query f = record { at = λ w. ground arith }

  pub Quiet-if : (b : Bool) (m n : Exec A) → Quiet m → Quiet n → Quiet (if b then m else n)
  Quiet-if true m n p q = p
  Quiet-if false m n p q = q

pub Quiet-modify_db : (f : Db → Db) → Quiet (modify_db f)
unfolding modify_db
Quiet-modify_db f = record { at = λ w. refl }

pub Quiet-execute : (f : Db → Db) → Quiet (execute f)
unfolding execute ◌>>=◌ remote modify_db
Quiet-execute f = record { at = λ w. ground arith }

module _ {A B : Type 0} where
  pub Quiet-bind :
      (m : Exec A) (f : A → Exec B) → Quiet m → ((a : A) → Quiet (f a)) → Quiet (m >>= f)
  unfolding ◌>>=◌
  Quiet-bind m f p q = record { at = λ w. step w (m w) (p.at w) }
    where
      step :
          (w : World) (r : Result A × World)
          → r.1.queue ≡ w.queue
          → (◌>>=◌ (λ _. r) f r.1).1.queue ≡ w.queue
      step w (ok a, w') e = (q a).at w' ∙ e
      step w (err c, w') e = e

  pub Quiet-on_option :
      (o : Option A) (m : Exec B) (f : A → Exec B)
      → Quiet m
      → ((a : A) → Quiet (f a))
      → Quiet (on_option o m f)
  unfolding on_option
  Quiet-on_option none m f p q = p
  Quiet-on_option (some a) m f p q = q a

  pub Quiet-on_result :
      (r : Result A) (m : Error → Exec B) (f : A → Exec B)
      → ((e : Error) → Quiet (m e))
      → ((a : A) → Quiet (f a))
      → Quiet (on_result r m f)
  unfolding on_result
  Quiet-on_result (ok a) m f p q = q a
  Quiet-on_result (err e) m f p q = p e

pub Quiet-ignore : {A : Type 0} (m : Exec A) → Quiet m → Quiet (ignore m)
unfolding ignore
Quiet-ignore m q = Quiet-bind _ _ (Quiet-attempt m q) (λ _. Quiet-pure tt)

pub ruleset quiet_rules = (
  Quiet-pure, Quiet-attempt, Quiet-query, Quiet-if, Quiet-modify_db, Quiet-execute, Quiet-bind,
  Quiet-on_option, Quiet-on_result, Quiet-ignore,
)

-- The queue has the old jobs, and before them maybe one that satisfies `P`.
abbrev pub Grown : (Job → Type 0) → World → World → Type 0
Grown P w w' = (w'.queue ≡ w.queue) ⊎ ((j : Job) × (w'.queue ≡ j ∷ w.queue) × P j)

-- From a database that satisfies `Q`, an action adds nothing or one job that satisfies `P`.
pub record Adds {A : Type 0} (Q : Db → Type 0) (P : Job → Type 0) (m : Exec A) : Type 0 where
  pub at : (w : World) → Q w.db → Grown P w (m w).1

module _ {A : Type 0} {Q : Db → Type 0} {P : Job → Type 0} where
  pub Adds-of_Quiet : (m : Exec A) → Quiet m → Adds Q P m
  Adds-of_Quiet m q = record { at = λ w h. inl (q.at w) }

  pub Adds-if :
      (b : Bool) (m n : Exec A)
      → (b ≡ true → Adds Q P m)
      → (b ≡ false → Adds Q P n)
      → Adds Q P (if b then m else n)
  Adds-if true m n p q = p refl
  Adds-if false m n p q = q refl

pub Adds-enqueue :
    {Q : Db → Type 0} {P : Job → Type 0} (j : Job) → P j → Adds Q P (attempt (enqueue j))
unfolding enqueue ◌>>=◌ remote attempt
Adds-enqueue {Q} {P} j p = record {
  at = λ w h. elim (Result_cases (remote w).0) [
    | inl (n, r) ↦ inr (j, ground (arith, r), p)
    | inr (e, r) ↦ inl (ground (arith, r))
  ];
}

module _ {A B : Type 0} {Q : Db → Type 0} {P : Job → Type 0} where
  -- The first action adds nothing, and gives values that satisfy `R`.
  pub Adds-bind :
      (R : A → Type 0) (m : Exec A) (f : A → Exec B)
      → Quiet m
      → Keeps Q m
      → ((w : World) (a : A) → Q w.db → (m w).0 ≡ ok a → R a)
      → ((a : A) → R a → Adds Q P (f a))
      → Adds Q P (m >>= f)
  unfolding ◌>>=◌
  Adds-bind R m f p k g q = record { at = λ w h. step w (m w) (p.at w) (k.at w h) (λ a. g w a h) }
    where
      moved : (w v u : World) → v.queue ≡ w.queue → Grown P v u → Grown P w u
      moved w v u e (inl x) = inl (x ∙ e)
      moved w v u e (inr (j, x, p)) = inr (j, cc (x, e), p)

      step :
          (w : World) (r : Result A × World)
          → r.1.queue ≡ w.queue
          → Q r.1.db
          → ((a : A) → r.0 ≡ ok a → R a)
          → Grown P w (◌>>=◌ (λ _. r) f r.1).1
      step w (ok a, w') e h g = moved w w' (f a w').1 e ((q a (g a refl)).at w' h)
      step w (err c, w') e h g = inl e

  -- The rest adds nothing.
  pub Adds-bind_Quiet :
      (m : Exec A) (f : A → Exec B) → Adds Q P m → ((a : A) → Quiet (f a)) → Adds Q P (m >>= f)
  unfolding ◌>>=◌
  Adds-bind_Quiet m f p q = record { at = λ w h. step w (m w) (p.at w h) }
    where
      moved : (w v u : World) → u.queue ≡ v.queue → Grown P w v → Grown P w u
      moved w v u e (inl x) = inl (e ∙ x)
      moved w v u e (inr (j, x, p)) = inr (j, e ∙ x, p)

      step : (w : World) (r : Result A × World) → Grown P w r.1 → Grown P w (◌>>=◌ (λ _. r) f r.1).1
      step w (ok a, w') g = moved w w' (f a w').1 ((q a).at w') g
      step w (err c, w') g = g

  pub Adds-on_option :
      (o : Option A) (m : Exec B) (f : A → Exec B)
      → Adds Q P m
      → ((a : A) → o ≡ some a → Adds Q P (f a))
      → Adds Q P (on_option o m f)
  unfolding on_option
  Adds-on_option none m f p q = p
  Adds-on_option (some a) m f p q = q a refl
