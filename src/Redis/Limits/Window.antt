-- ===== src/Redis/Limits/Window.antt =====
-- The counters as limits: the calls of one window, and the credits of one day.
use testmellow.Prelude.{ℕ, ◌+◌, ◌<◌, ◌≡◌, none, some, List, [], ◌∷◌, arith, length, All}
use testmellow.Redis.Store.{Key, Cache, get, get-put, key_eq_refl, put}
use testmellow.Redis.Limits.{increment_script}

-- The cache after calls at the given times, the latest first.
abbrev pub after_calls : Key → ℕ → List ℕ → Cache → Cache
after_calls key ttl [] c = c
after_calls key ttl (t ∷ ts) c = (increment_script t key ttl (after_calls key ttl ts c)).1

-- The entry after calls that all come before `end`, the first of them at `end - ttl`.
counted :
    (key : Key) (ttl first : ℕ) (ts : List ℕ) (c : Cache) (now : ℕ)
    → get first key c ≡ none
    → All (λ t. t < first + ttl) ts
    → now < first + ttl
    → get now key (after_calls key ttl ts (increment_script first key ttl c).1)
      ≡ some (record { value = length ts + 1; expires_at = some (first + ttl) })
unfolding increment_script
counted key ttl first [] c now e a l = ground (
  arith,
  get-put now key key (record { value = 1; expires_at = some (first + ttl) }) c,
  key_eq_refl key,
)
counted key ttl first (t ∷ ts) c now e (l, a) m = ground (
  arith,
  counted key ttl first ts c t e a l,
  key_eq_refl key,
  get-put now key key (record { value = length ts + 1 + 1; expires_at = some (first + ttl) })
      (after_calls key ttl ts (increment_script first key ttl c).1),
)

-- The count of the next call.
pub increment_script-next :
    (key : Key) (ttl first : ℕ) (ts : List ℕ) (c : Cache) (now : ℕ)
    → get first key c ≡ none
    → All (λ t. t < first + ttl) ts
    → now < first + ttl
    → (increment_script now key ttl (after_calls key ttl ts (increment_script first key ttl c).1)).0
      ≡ length ts + 2
unfolding increment_script
increment_script-next key ttl first ts c now e a l =
    ground (arith, counted key ttl first ts c now e a l)

-- A window starts with the first call of an absent key, at the time `first`. Of the calls within
-- `ttl` seconds of it, in whatever order their times come, the one after `n + 1` calls gets the count
-- `n + 2`, and the counter has that value afterwards and still expires at `first + ttl`: the time of
-- expiry does not move, and no call is lost.
pub increment_script-counts :
    (key : Key) (ttl first : ℕ) (ts : List ℕ) (c : Cache) (now : ℕ)
    → get first key c ≡ none
    → All (λ t. t < first + ttl) ts
    → now < first + ttl
    → let r =
        increment_script now key ttl
          (after_calls key ttl ts (increment_script first key ttl c).1) in
      (r.0 ≡ length ts + 2)
      × (r.1.entry key ≡ some (record { value = length ts + 2; expires_at = some (first + ttl) }))
unfolding increment_script put
increment_script-counts key ttl first ts c now e a l = (
  increment_script-next key ttl first ts c now e a l,
  ground (arith, counted key ttl first ts c now e a l, key_eq_refl key),
)
