-- ===== src/World/Bind.antt =====
-- What a bind and a transaction that succeed have done.
use testmellow.Prelude.{ℕ, ◌≡◌, refl, ap, sym, subst, arith, inl, inr}
use testmellow.World.Exec.{
  Result, Result_cases, ok, err, World, Exec, ◌>>=◌, transaction, atomically, remote, pure, Error,
}

pub record Bound {A B : Type 0} (m : Exec A) (f : A → Exec B) (w : World) (b : B) : Type 0 where
  pub value : A
  pub first : (m w).0 ≡ ok value
  pub second : (f value (m w).1).0 ≡ ok b
  pub world : ((m >>= f) w).1 ≡ (f value (m w).1).1

module _ {A B : Type 0} where
  pub bind_ok :
      (m : Exec A) (f : A → Exec B) (w : World) (b : B) → ((m >>= f) w).0 ≡ ok b → Bound m f w b
  unfolding ◌>>=◌
  bind_ok m f w b h = step (m w) refl h
    where
      step : (r : Result A × World) → m w ≡ r → (◌>>=◌ (λ _. r) f r.1).0 ≡ ok b → Bound m f w b
      step (ok a, w') e h = record {
        value = a;
        first = ap (λ (r : Result A × World). r.0) e;
        second = subst (λ (r : Result A × World). (f a r.1).0 ≡ ok b) (sym e) h;
        world = rw e refl;
      }
      step (err c, w') e h = cc

-- A transaction that is committed has run its body on the database it found.
pub record Committed {A : Type 0} (m : Exec A) (w : World) (a : A) : Type 0 where
  pub start : World
  pub same : start.db ≡ w.db
  pub body : (m start).0 ≡ ok a
  pub world : (transaction m w).1.db ≡ (m start).1.db

module _ {A : Type 0} where
  committed :
      (m : Exec A) (w : World) (a b : A) (n : ℕ)
      → (transaction m w).0 ≡ ok a
      → (remote w).0 ≡ ok n
      → (m (remote w).1).0 ≡ ok b
      → Committed m w a
  unfolding transaction atomically ◌>>=◌ remote pure
  committed m w a b n h r q = elim (Result_cases (remote (m (remote w).1).1).0) [
    | inl (k, s) ↦ record {
      start = (remote w).1;
      same = refl;
      body = ground (arith, h, r, q, s);
      world = ground (arith, r, q, s);
    }
    | inr (e, s) ↦ absurd (ground (arith, h, r, q, s))
  ]

  pub transaction-ok :
      (m : Exec A) (w : World) (a : A) → (transaction m w).0 ≡ ok a → Committed m w a
  unfolding transaction atomically ◌>>=◌ remote pure
  transaction-ok m w a h = elim (Result_cases (remote w).0) [
    | inl (n, r) ↦ elim (Result_cases (m (remote w).1).0) [
      | inl (b, q) ↦ committed m w a b n h r q
      | inr (e, q) ↦ absurd (ground (arith, h, r, q))
    ]
    | inr (e, r) ↦ absurd (ground (arith, r, h))
  ]

module _ {A B : Type 0} where
  pub bind-continues :
      (m : Exec A) (f : A → Exec B) (w : World) (a : A) → (m w).0 ≡ ok a → (m >>= f) w ≡ f a (m w).1
  unfolding ◌>>=◌
  bind-continues m f w a h = step (m w) h
    where
      step : (r : Result A × World) → r.0 ≡ ok a → ◌>>=◌ (λ _. r) f r.1 ≡ f a r.1
      step (ok b, w') e = cc e
      step (err c, w') e = cc

  pub bind-fails :
      (m : Exec A) (f : A → Exec B) (w : World) (e : Error)
      → (m w).0 ≡ err e
      → (m >>= f) w ≡ (err e, (m w).1)
  unfolding ◌>>=◌
  bind-fails m f w e h = step (m w) h
    where
      step : (r : Result A × World) → r.0 ≡ err e → ◌>>=◌ (λ _. r) f r.1 ≡ (err e, r.1)
      step (ok b, w') q = cc
      step (err c, w') q = cc q
