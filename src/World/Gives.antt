-- ===== src/World/Gives.antt =====
-- What holds of every value that an action returns.
use testmellow.Prelude.{◌≡◌, refl, Bool, true, false, Option, none, some, arith, if◌then◌else◌}
use testmellow.World.Rows.{Db}
use testmellow.World.Exec.{
  Error, Result, ok, err, World, Exec, pure, raise, ◌>>=◌, on_option, on_result, fail_if,
}
use testmellow.World.Keeps.{Keeps}

pub record Gives {A : Type 0} (P : A → Type 0) (m : Exec A) : Type 0 where
  pub at : (w : World) (a : A) → (m w).0 ≡ ok a → P a

module _ {A : Type 0} {P : A → Type 0} where
  pub Gives-pure : (a : A) → P a → Gives P (pure a)
  unfolding pure
  Gives-pure a p = record { at = λ w b e. ground (arith, e, p) }

  pub Gives-raise : (e : Error) → Gives P (raise e)
  unfolding raise
  Gives-raise e = record { at = λ w b h. cc }

  pub Gives-if :
      (b : Bool) (m n : Exec A)
      → (b ≡ true → Gives P m)
      → (b ≡ false → Gives P n)
      → Gives P (if b then m else n)
  Gives-if true m n p q = p refl
  Gives-if false m n p q = q refl

  pub Gives-fail_if :
      (b : Bool) (e : Error) (f : Unit {0} → Exec A)
      → (b ≡ false → Gives P (f tt))
      → Gives P (fail_if b e >>= f)
  unfolding fail_if ◌>>=◌
  Gives-fail_if true e f k = record { at = λ w a h. cc }
  Gives-fail_if false e f k = record { at = (k refl).at }

module _ {A B : Type 0} {P : B → Type 0} where
  pub Gives-bind : (m : Exec A) (f : A → Exec B) → ((a : A) → Gives P (f a)) → Gives P (m >>= f)
  unfolding ◌>>=◌
  Gives-bind m f p = record { at = λ w b e. step (m w) b e }
    where
      step : (r : Result A × World) (b : B) → (◌>>=◌ (λ _. r) f r.1).0 ≡ ok b → P b
      step (ok a, w') b e = (p a).at w' b e
      step (err c, w') b e = cc

  pub Gives-on_option :
      (o : Option A) (m : Exec B) (f : A → Exec B)
      → Gives P m
      → ((a : A) → o ≡ some a → Gives P (f a))
      → Gives P (on_option o m f)
  unfolding on_option
  Gives-on_option none m f p q = p
  Gives-on_option (some a) m f p q = q a refl

  pub Gives-on_result :
      (r : Result A) (m : Error → Exec B) (f : A → Exec B)
      → ((e : Error) → Gives P (m e))
      → ((a : A) → Gives P (f a))
      → Gives P (on_result r m f)
  unfolding on_result
  Gives-on_result (ok a) m f p q = q a
  Gives-on_result (err e) m f p q = p e

module _ {A B : Type 0} {P : A → Type 0} {Q : Db → Type 0} where
  -- The rest may use what the first action gives.
  pub Keeps-bind_Gives :
      (m : Exec A) (f : A → Exec B)
      → Gives P m
      → Keeps Q m
      → ((a : A) → P a → Keeps Q (f a))
      → Keeps Q (m >>= f)
  unfolding ◌>>=◌
  Keeps-bind_Gives m f g k l = record { at = λ w h. step (m w) (g.at w) (k.at w h) }
    where
      step :
          (r : Result A × World)
          → ((a : A) → r.0 ≡ ok a → P a)
          → Q r.1.db
          → Q (◌>>=◌ (λ _. r) f r.1).1.db
      step (ok a, w') p q = (l a (p a refl)).at w' q
      step (err c, w') p q = q

module _ {A B : Type 0} {P : A → Db → Type 0} {Q : Db → Type 0} where
  -- The rest may use what the first action has read or written.
  pub Keeps-bind_read :
      (m : Exec A) (f : A → Exec B)
      → ((w : World) (a : A) → (m w).0 ≡ ok a → P a (m w).1.db)
      → Keeps Q m
      → ((a : A) → Keeps (λ d. Q d × P a d) (f a))
      → Keeps Q (m >>= f)
  unfolding ◌>>=◌
  Keeps-bind_read m f g k l = record { at = λ w h. step (m w) (g w) (k.at w h) }
    where
      step :
          (r : Result A × World)
          → ((a : A) → r.0 ≡ ok a → P a r.1.db)
          → Q r.1.db
          → Q (◌>>=◌ (λ _. r) f r.1).1.db
      step (ok a, w') p q = ((l a).at w' (q, p a refl)).0
      step (err c, w') p q = q

module _ {A : Type 0} {Q : Db → Type 0} where
  -- The rest may use that the guard has passed.
  pub Keeps-guard :
      (b : Bool) (e : Error) (f : Unit {0} → Exec A)
      → (b ≡ false → Keeps Q (f tt))
      → Keeps Q (fail_if b e >>= f)
  unfolding fail_if ◌>>=◌
  Keeps-guard true e f k = record { at = λ w h. h }
  Keeps-guard false e f k = record { at = (k refl).at }

pub ruleset gives_rules =
    (Gives-pure, Gives-raise, Gives-if, Gives-bind, Gives-on_option, Gives-on_result)
