-- ===== src/Redis/Challenge.antt =====
-- redis.go: two-factor challenges. A value is the text "userID:status", a list of bytes.
pub mod Split
pub mod Commands
use testmellow.Prelude.{
  ℕ, zero, suc, ◌+◌, Bool, true, false, Option, none, some, List, [], ◌∷◌, ◌++◌, ◌==◌, length, take,
  ◌&&◌, ltb, if◌then◌else◌,
}

-- The byte ':'.
abbrev pub colon : ℕ
colon = 58

-- `val[i]`, 0 out of range.
unfoldable pub byte_at : ℕ → List ℕ → ℕ
byte_at i [] = 0
byte_at zero (x ∷ xs) = x
byte_at (suc i) (x ∷ xs) = byte_at i xs

-- `val[i:]`
unfoldable pub drop : ℕ → List ℕ → List ℕ
drop zero xs = xs
drop (suc i) [] = []
drop (suc i) (x ∷ xs) = drop i xs

-- The loop of `splitTFAValue` down from `n - 1`: the parts before and after the last colon.
unfoldable pub split_below : ℕ → List ℕ → Option (List ℕ × List ℕ)
unfolding byte_at drop
split_below zero val = none
split_below (suc i) val =
    if byte_at i val == colon then some (take i val, drop (suc i) val) else split_below i val

-- "pending"
abbrev pub tfa_pending : List ℕ
tfa_pending = 112 ∷ 101 ∷ 110 ∷ 100 ∷ 105 ∷ 110 ∷ 103 ∷ []

-- "approved" and "denied"
abbrev pub tfa_approved : List ℕ
tfa_approved = 97 ∷ 112 ∷ 112 ∷ 114 ∷ 111 ∷ 118 ∷ 101 ∷ 100 ∷ []

abbrev pub tfa_denied : List ℕ
tfa_denied = 100 ∷ 101 ∷ 110 ∷ 105 ∷ 101 ∷ 100 ∷ []

abbrev parts_or_pending : List ℕ → Option (List ℕ × List ℕ) → List ℕ × List ℕ
parts_or_pending val none = (val, tfa_pending)
parts_or_pending val (some p) = p

-- `splitTFAValue`
unfoldable pub split_tfa_value : List ℕ → List ℕ × List ℕ
unfolding split_below
split_tfa_value val = parts_or_pending val (split_below (length val) val)

-- Equality of texts.
unfoldable pub text_eq : List ℕ → List ℕ → Bool
text_eq [] [] = true
text_eq (x ∷ xs) (y ∷ ys) = (x == y) && text_eq xs ys
text_eq xs ys = false

-- The key "tfa:%s" of a challenge: its value and the time at which it expires.
pub record Challenge : Type 0 where
  pub value : List ℕ
  pub expires_at : ℕ

abbrev pub live_challenge : ℕ → Option Challenge → Option Challenge
live_challenge now none = none
live_challenge now (some c) = if ltb now c.expires_at then some c else none

-- `Create2FAChallenge`
unfoldable pub create_challenge : (now : ℕ) → List ℕ → Option Challenge
create_challenge now user_id =
    some (record { value = user_id ++ (colon ∷ tfa_pending); expires_at = now + 300 })

-- `Get2FAChallenge`: nothing for an absent key.
abbrev split_of : Option Challenge → Option (List ℕ × List ℕ)
split_of none = none
split_of (some c) = some (split_tfa_value c.value)

unfoldable pub get_challenge : (now : ℕ) → Option Challenge → Option (List ℕ × List ℕ)
unfolding split_tfa_value
get_challenge now c = split_of (live_challenge now c)

-- `resolveTFAScript`: a value without a colon and an absent key stay.
abbrev rewritten :
    (now : ℕ) → List ℕ → Option (List ℕ × List ℕ) → Option Challenge → Option Challenge
rewritten now status none old = old
rewritten now status (some (user_id, s)) old =
    some (record { value = user_id ++ (colon ∷ status); expires_at = now + 120 })

abbrev separated : Option Challenge → Option (List ℕ × List ℕ)
separated none = none
separated (some c) = split_below (length c.value) c.value

-- `Resolve2FAChallenge`
unfoldable pub resolve_challenge : (now : ℕ) → List ℕ → Option Challenge → Option Challenge
unfolding split_below
resolve_challenge now status c = rewritten now status (separated (live_challenge now c)) c
