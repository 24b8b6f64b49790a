-- ===== src/Redis/Once/Locks.antt =====
-- The lock with a token.
use testmellow.Prelude.{ℕ, ◌+◌, ◌<◌, ◌≡◌, ◌≢◌, true, false, none, some, arith}
use testmellow.Redis.Store.{Key, Cache, get, get-put, get-del, key_eq_refl}
use testmellow.Redis.Once.{set_nx_script, unlock_script}

module _ (key : Key) (token ttl t0 : ℕ) (c : Cache) where
  -- The lock after it has been taken.
  abbrev pub locked : Cache
  locked = (set_nx_script t0 key token ttl c).1

  held :
      (t : ℕ)
      → get t0 key c ≡ none
      → t < t0 + ttl
      → get t key locked ≡ some (record { value = token; expires_at = some (t0 + ttl) })
  unfolding set_nx_script
  held t e l = ground (
    arith,
    get-put t key key (record { value = token; expires_at = some (t0 + ttl) }) c,
    key_eq_refl key,
  )

  -- A free lock is taken with a token. Until it expires, `ttl` seconds later, another attempt gets
  -- nothing and changes nothing, an unlock with another token changes nothing, and after an unlock
  -- with the token the lock is free.
  pub try_lock-excludes :
      (t other : ℕ)
      → get t0 key c ≡ none
      → t < t0 + ttl
      → other ≢ token
      → ((set_nx_script t0 key token ttl c).0 ≡ true)
        × (set_nx_script t key other ttl locked ≡ (false, locked))
        × ((unlock_script t key other locked).1 ≡ locked)
        × (get t key (unlock_script t key token locked).1 ≡ none)
  unfolding set_nx_script unlock_script
  try_lock-excludes t other e l ne = (
    ground arith,
    ground (arith, held t e l),
    ground (arith, held t e l),
    ground (arith, held t e l, get-del t key key locked, key_eq_refl key),
  )
