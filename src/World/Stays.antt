-- ===== src/World/Stays.antt =====
-- The part of a function that only reads, and what it hands on: the database is that of the start, and
-- if no call was going to fail at the start, none is going to fail now.
use testmellow.Prelude.{
  ℕ, ◌≡◌, refl, Bool, true, false, Option, none, some, List, [], ◌∷◌, if◌then◌else◌, arith,
}
use testmellow.World.Rows.{Db}
use testmellow.World.Exec.{
  Error, Outcome, Result, ok, err, World, Exec, pure, raise, gets, attempt, ◌>>=◌, on_option,
  on_result, fail_if, remote, query, new_id, ignore, later_outcomes,
}
use testmellow.Redis.Store.{Cache}
use testmellow.Redis.Limits.{script, run_script}
use testmellow.World.Gives.{Gives}

abbrev is_done : Outcome → Bool
is_done (Outcome.done n) = true
is_done Outcome.io_error = false
is_done Outcome.serialization_error = false

abbrev pub all_done : List Outcome → Bool
all_done [] = true
all_done (o ∷ os) = if is_done o then all_done os else false

-- `w` may follow the world with database `d` and outcomes `os`.
pub record Follows (d : Db) (os : List Outcome) (w : World) : Type 0 where
  pub same : w.db ≡ d
  pub no_failure : all_done os ≡ true → all_done w.outcomes ≡ true

pub record Stays {A : Type 0} (d : Db) (os : List Outcome) (m : Exec A) : Type 0 where
  pub at : (w : World) → Follows d os w → Follows d os (m w).1

-- From such a world, whatever is returned satisfies `P`.
pub record Ends {A : Type 0} (d : Db) (os : List Outcome) (P : A → Type 0) (m : Exec A)
    : Type 0 where
  pub at : (w : World) (a : A) → Follows d os w → (m w).0 ≡ ok a → P a

later-done : (o : Outcome) (os : List Outcome) → all_done (o ∷ os) ≡ true → all_done os ≡ true
later-done (Outcome.done n) os h = h
later-done Outcome.io_error os h = absurd (ground (arith, h))
later-done Outcome.serialization_error os h = absurd (ground (arith, h))

module _ {d : Db} {os : List Outcome} where
  pub Stays-remote : Stays d os remote
  unfolding remote
  Stays-remote = record { at = step }
    where
      step : (w : World) → Follows d os w → Follows d os (remote w).1
      step w f = record { same = f.same; no_failure = λ h. later w.outcomes (f.no_failure h) }
        where
          later : (xs : List Outcome) → all_done xs ≡ true → all_done (later_outcomes xs) ≡ true
          later [] h = refl
          later (x ∷ xs) h = later-done x xs h

  pub Stays-new_id : Stays d os new_id
  unfolding new_id
  Stays-new_id = record { at = λ w f. record { same = f.same; no_failure = f.no_failure } }

  pub Stays-fail_if : (b : Bool) (e : Error) → Stays d os (fail_if b e)
  unfolding fail_if raise pure
  Stays-fail_if true e = record { at = λ w f. f }
  Stays-fail_if false e = record { at = λ w f. f }

module _ {A : Type 0} {d : Db} {os : List Outcome} where
  pub Stays-pure : (a : A) → Stays d os (pure a)
  unfolding pure
  Stays-pure a = record { at = λ w f. f }

  pub Stays-raise : (e : Error) → Stays d os (raise {A = A} e)
  unfolding raise
  Stays-raise e = record { at = λ w f. f }

  pub Stays-attempt : (m : Exec A) → Stays d os m → Stays d os (attempt m)
  unfolding attempt
  Stays-attempt m s = record { at = s.at }

  pub Stays-if :
      (b : Bool) (m n : Exec A) → Stays d os m → Stays d os n → Stays d os (if b then m else n)
  Stays-if true m n s t = s
  Stays-if false m n s t = t

  pub Ends-of_Gives : {P : A → Type 0} (m : Exec A) → Gives P m → Ends d os P m
  Ends-of_Gives m g = record { at = λ w a f h. g.at w a h }

module _ {A B : Type 0} {d : Db} {os : List Outcome} where
  pub Stays-bind :
      (m : Exec A) (f : A → Exec B)
      → Stays d os m
      → ((a : A) → Stays d os (f a))
      → Stays d os (m >>= f)
  unfolding ◌>>=◌
  Stays-bind m f s t = record { at = λ w h. step (m w) (s.at w h) }
    where
      step : (r : Result A × World) → Follows d os r.1 → Follows d os (◌>>=◌ (λ _. r) f r.1).1
      step (ok a, w) h = (t a).at w h
      step (err e, w) h = h

  pub Stays-on_option :
      (o : Option A) (m : Exec B) (f : A → Exec B)
      → Stays d os m
      → ((a : A) → Stays d os (f a))
      → Stays d os (on_option o m f)
  unfolding on_option
  Stays-on_option none m f s t = s
  Stays-on_option (some a) m f s t = t a

  pub Stays-on_result :
      (r : Result A) (m : Error → Exec B) (f : A → Exec B)
      → ((e : Error) → Stays d os (m e))
      → ((a : A) → Stays d os (f a))
      → Stays d os (on_result r m f)
  unfolding on_result
  Stays-on_result (ok a) m f s t = t a
  Stays-on_result (err e) m f s t = s e

  -- The rest may use what the first part has read.
  pub Ends-bind_read :
      {P : B → Type 0} (R : A → Type 0) (m : Exec A) (f : A → Exec B)
      → Stays d os m
      → Ends d os R m
      → ((a : A) → R a → Ends d os P (f a))
      → Ends d os P (m >>= f)
  unfolding ◌>>=◌
  Ends-bind_read {P} R m f s e t = record {
    at = λ w b h. step (m w) b (s.at w h) (λ a. e.at w a h);
  }
    where
      step :
          (r : Result A × World) (b : B)
          → Follows d os r.1
          → ((a : A) → r.0 ≡ ok a → R a)
          → (◌>>=◌ (λ _. r) f r.1).0 ≡ ok b
          → P b
      step (ok a, w) b h q k = (t a (q a refl)).at w b h k
      step (err c, w) b h q k = absurd (ground (arith, k))

  pub Ends-bind :
      {P : B → Type 0} (m : Exec A) (f : A → Exec B)
      → Stays d os m
      → ((a : A) → Ends d os P (f a))
      → Ends d os P (m >>= f)
  Ends-bind m f s t =
      Ends-bind_read (λ _. Unit {0}) m f s (record { at = λ w a h k. tt }) (λ a _. t a)

  pub Ends-on_option :
      {P : B → Type 0} (o : Option A) (m : Exec B) (f : A → Exec B)
      → Ends d os P m
      → ((a : A) → Ends d os P (f a))
      → Ends d os P (on_option o m f)
  unfolding on_option
  Ends-on_option none m f s t = s
  Ends-on_option (some a) m f s t = t a

module _ {A : Type 0} {d : Db} {os : List Outcome} where
  pub Stays-query : (f : Db → A) → Stays d os (query f)
  unfolding query gets
  Stays-query f = Stays-bind _ _ Stays-remote (λ _. record { at = λ w h. h })

  pub Stays-ignore : (m : Exec A) → Stays d os m → Stays d os (ignore m)
  unfolding ignore
  Stays-ignore m s = Stays-bind _ _ (Stays-attempt m s) (λ _. Stays-pure tt)

  pub Stays-script : (f : ℕ → Cache → A × Cache) → Stays d os (script f)
  unfolding script
  Stays-script f =
      Stays-bind remote (λ _. run_script f) Stays-remote
        (λ _. record { at = λ w h. record { same = h.same; no_failure = h.no_failure } })

pub ruleset stays_rules = (
  Stays-pure, Stays-raise, Stays-attempt, Stays-if, Stays-remote, Stays-new_id, Stays-fail_if,
  Stays-bind, Stays-on_option, Stays-on_result, Stays-query, Stays-ignore, Stays-script,
)
