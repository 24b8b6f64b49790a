-- ===== src/Redis/Challenge/Split.antt =====
-- Two-factor challenges keep their user.
use testmellow.Prelude.{
  ℕ, zero, suc, ◌+◌, ◌<◌, ◌≡◌, refl, ap, ◌∙◌, false, none, some, List, [], ◌∷◌, ◌++◌, arith, ◌==◌,
  exists, length, take, Option, Option-cases, Bool-cases, inl, inr, ◌⊎◌, ltb,
}
use testmellow.Redis.Challenge.{
  colon, byte_at, drop, split_below, split_tfa_value, create_challenge, get_challenge,
  resolve_challenge, tfa_pending, Challenge,
}

-- A text without colon.
abbrev pub NoColon : List ℕ → Type 0
NoColon s = exists (λ x. x == colon) s ≡ false

length-append : (u s : List ℕ) → length (u ++ s) ≡ length u + length s
length-append [] s = omega arith
length-append (x ∷ u) s = ground (arith, length-append u s)

byte_at-append : (u s : List ℕ) (i : ℕ) → byte_at (length u + i) (u ++ s) ≡ byte_at i s
unfolding byte_at
byte_at-append [] s i = ground arith
byte_at-append (x ∷ u) s i = ground (arith, byte_at-append u s i)

take-append : (u s : List ℕ) → take (length u) (u ++ s) ≡ u
take-append [] s = refl
take-append (x ∷ u) s = ground (arith, take-append u s)

suc_add : (m n : ℕ) → suc m + n ≡ suc (m + n)
suc_add m n = omega arith

add_suc : (m n : ℕ) → m + suc n ≡ suc (m + n)
add_suc m n = omega arith

add_zero : (m : ℕ) → m + 0 ≡ m
add_zero m = omega arith

drop-append : (u s : List ℕ) (i : ℕ) → drop (length u + i) (u ++ s) ≡ drop i s
unfolding drop
drop-append [] s i = ap (λ k. drop k s) (omega arith)
drop-append (x ∷ u) s i = ap (λ k. drop k (x ∷ u ++ s)) (suc_add (length u) i) ∙ drop-append u s i

byte_at-NoColon : (s : List ℕ) (i : ℕ) → NoColon s → (byte_at i s == colon) ≡ false
unfolding byte_at
byte_at-NoColon [] i n = refl
byte_at-NoColon (x ∷ s) zero n = ground arith
byte_at-NoColon (x ∷ s) (suc i) n = byte_at-NoColon s i (ground arith)

-- The loop passes the bytes after the colon and stops at it.
split_below-append :
    (u s : List ℕ) (k : ℕ)
    → NoColon s
    → split_below (length u + suc k) (u ++ (colon ∷ s)) ≡ some (u, s)
unfolding split_below byte_at drop
split_below-append u s zero n = rw (add_suc (length u) 0) (
    ground (
      arith,
      byte_at-append u (colon ∷ s) 0,
      take-append u (colon ∷ s),
      drop-append u (colon ∷ s) 1,
      add_zero (length u),
      add_suc (length u) 0,
    ))
split_below-append u s (suc k) n = rw (add_suc (length u) (suc k)) (
    ground (
      arith,
      byte_at-append u (colon ∷ s) (suc k),
      byte_at-NoColon s k n,
      split_below-append u s k n,
    ))

-- A value made of a user and a status without colon splits into the two, whatever the user's text.
pub split_tfa_value-append :
    (u s : List ℕ) → NoColon s → split_tfa_value (u ++ (colon ∷ s)) ≡ (u, s)
unfolding split_tfa_value
split_tfa_value-append u s n =
    rw (length-append u (colon ∷ s), split_below-append u s (length s) n) refl

-- A challenge that is created reads as pending for 300 seconds; resolved in that time with a status
-- without colon, it reads as that status, for the same user, for another 120 seconds. An absent
-- challenge stays absent.
pub resolve_challenge-get :
    (u s : List ℕ) (t0 t t1 : ℕ)
    → NoColon s
    → t < t0 + 300
    → t1 < t + 120
    → (get_challenge t (create_challenge t0 u) ≡ some (u, tfa_pending))
      × (get_challenge t1 (resolve_challenge t s (create_challenge t0 u)) ≡ some (u, s))
      × (get_challenge t1 (resolve_challenge t s none) ≡ none)
unfolding get_challenge create_challenge resolve_challenge
resolve_challenge-get u s t0 t t1 n l m = (
  ground (arith, split_tfa_value-append u tfa_pending refl),
  ground (
    arith,
    split_tfa_value-append u s n,
    split_below-append u tfa_pending (length tfa_pending) refl,
    length-append u (colon ∷ tfa_pending),
  ),
  refl,
)

-- What a resolved challenge can be: what it was, or the same user with the new status.
pub resolve_challenge-cases :
    (now : ℕ) (s : List ℕ) (old : Option Challenge) (c : Challenge)
    → resolve_challenge now s old ≡ some c
    → (old ≡ some c)
      ⊎ ((u : List ℕ) × (status : List ℕ) × (get_challenge now old ≡ some (u, status))
          × (c.value ≡ u ++ (colon ∷ s)))
unfolding resolve_challenge get_challenge split_tfa_value
resolve_challenge-cases now s none c h = inl h
resolve_challenge-cases now s (some o) c h = elim (Bool-cases (ltb now o.expires_at)) [
  | inr f ↦ inl (ground (arith, h, f))
  | inl t ↦ elim (Option-cases (split_below (length o.value) o.value)) [
    | inl n ↦ inl (ground (arith, h, t, n))
    | inr ((u, status), e) ↦ inr (u, status, ground (arith, t, e), ground (arith, h, t, e))
  ]
]
