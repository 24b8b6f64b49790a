-- ===== src/Prelude/Tables.antt =====
-- A database table: its rows under their primary keys, in the order in which a scan meets them.
use Prim.Native.Nat.{ℕ, zero, suc}
use mathlib.Core.Path.{◌≡◌, refl}
use mathlib.Core.Bool.{Bool, ◌&&◌, not}
use mathlib.Core.Option
use mathlib.Core.Option.{Option, none, some}
use mathlib.Core.List.{List, [], ◌∷◌}
use native.Mathlib.Omega.{arith}
use testmellow.Prelude.Tests.{◌==◌, if◌then◌else◌}

abbrev pub Table {ℓ} : Type ℓ → Type ℓ
Table V = List (ℕ × V)

abbrev pub length {ℓ} : {A : Type ℓ} → List A → ℕ
length [] = 0
length (x ∷ xs) = suc (length xs)

-- `for _, x := range xs { if p(x) { return true } }`
abbrev pub exists {ℓ} : {A : Type ℓ} → (A → Bool) → List A → Bool
exists p [] = Bool.false
exists p (x ∷ xs) = if p x then Bool.true else exists p xs

abbrev pub take {ℓ} : {A : Type ℓ} → ℕ → List A → List A
take zero xs = []
take (suc n) [] = []
take (suc n) (x ∷ xs) = x ∷ take n xs

abbrev pub All {ℓ κ} : {A : Type ℓ} → (A → Type κ) → List A → Type κ
All P [] = Unit
All P (x ∷ xs) = P x × All P xs

module _ {ℓ} {A : Type ℓ} where
  -- `UPDATE … WHERE p` and `DELETE … WHERE p` on a table without a key.
  unfoldable pub map_where : (A → Bool) → (A → A) → List A → List A
  map_where p f [] = []
  map_where p f (x ∷ xs) = (if p x then f x else x) ∷ map_where p f xs

  unfoldable pub drop_where : (A → Bool) → List A → List A
  drop_where p [] = []
  drop_where p (x ∷ xs) = let rest = drop_where p xs in if p x then rest else x ∷ rest

module _ {ℓ} {V : Type ℓ} where
  -- `EXISTS (SELECT … WHERE p)`
  abbrev pub any_row : (V → Bool) → Table V → Bool
  any_row p t = exists (λ r. p r.1) t

  -- `DELETE … WHERE p`
  unfoldable pub remove_where : (V → Bool) → Table V → Table V
  remove_where p [] = []
  remove_where p ((j, v) ∷ t) = let rest = remove_where p t in if p v then rest else (j, v) ∷ rest

  -- `UPDATE … WHERE p AND id <> $1`
  unfoldable pub update_others : ℕ → (V → Bool) → (V → V) → Table V → Table V
  update_others k p f [] = []
  update_others k p f ((j, v) ∷ t) =
      (j, if p v && not (j == k) then f v else v) ∷ update_others k p f t

  -- `SELECT … WHERE id = $1`
  unfoldable pub find : ℕ → Table V → Option V
  find k [] = none
  find k ((j, v) ∷ t) = if j == k then some v else find k t

  -- `UPDATE … WHERE id = $1`
  unfoldable pub update : ℕ → (V → V) → Table V → Table V
  update k f [] = []
  update k f ((j, v) ∷ t) = (j, if j == k then f v else v) ∷ update k f t

  -- `DELETE … WHERE id = $1`
  unfoldable pub remove : ℕ → Table V → Table V
  remove k [] = []
  remove k ((j, v) ∷ t) = let rest = remove k t in if j == k then rest else (j, v) ∷ rest

  -- `UPDATE … WHERE p`
  unfoldable pub update_where : (V → Bool) → (V → V) → Table V → Table V
  update_where p f [] = []
  update_where p f ((j, v) ∷ t) = (j, if p v then f v else v) ∷ update_where p f t

  -- The rows that satisfy a test, in the order of the table.
  unfoldable pub rows_where : (V → Bool) → Table V → Table V
  rows_where p [] = []
  rows_where p ((j, v) ∷ t) = let rest = rows_where p t in if p v then (j, v) ∷ rest else rest

  pub find-update :
      (k j : ℕ) (f : V → V) (t : Table V)
      → find j (update k f t) ≡ (if k == j then Option.map f (find j t) else find j t)
  unfolding find update
  find-update k j f [] = ground arith
  find-update k j f ((i, v) ∷ t) = ground (arith, find-update k j f t)

  pub find-remove :
      (k j : ℕ) (t : Table V) → find j (remove k t) ≡ (if k == j then none else find j t)
  unfolding find remove
  find-remove k j [] = ground arith
  find-remove k j ((i, v) ∷ t) = ground (arith, find-remove k j t)

  pub find-cons :
      (k j : ℕ) (v : V) (t : Table V) → find j ((k, v) ∷ t) ≡ (if k == j then some v else find j t)
  unfolding find
  find-cons k j v t = refl
