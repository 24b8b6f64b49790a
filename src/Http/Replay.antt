-- ===== src/Http/Replay.antt =====
-- handlers.go, `Refresh`: the answer to a token whose id is no longer in Redis.
use testmellow.Prelude.{ℕ, ◌+◌, ◌≡◌, refl, true, none, some, [], arith, exists, ◌==◌}
use testmellow.World.Exec.{
  Error, ok, err, World, ◌>>=◌, attempt, on_result, on_option, remote, now, ignore, fail_if, raise,
}
use testmellow.Redis.Store.{get, put, del}
use testmellow.Redis.Limits.{script}
use testmellow.Redis.Sessions.{
  refresh_key, password_version_key, validate_and_revoke, check_password_version, revoke_all,
  set_password_version, take_script, members,
}
use testmellow.Redis.Sessions.Revocation.{get-del_tokens}
use testmellow.Jwt.{TokenLibrary, TokenClaims, parse_refresh}
use testmellow.Http.Auth.{refresh, exchange, redeem_refresh, refuse_replay, accept_stored}

module _ (c : TokenClaims) (w : World) where
  refuse_revokes :
      (j t : ℕ)
      → w.outcomes ≡ []
      → exists (λ i. i == j) (members w.clock c.user_id w.cache) ≡ true
      → get t (refresh_key j) (refuse_replay c Error.refresh_revoked w).1.cache ≡ none
  unfolding refuse_replay ◌>>=◌ ignore attempt now revoke_all set_password_version script remote
      raise put get
  refuse_revokes j t calm m =
      ground (arith, calm, m, get-del_tokens t j (members w.clock c.user_id w.cache) w.cache)

  refuse_stamps :
      w.outcomes ≡ []
      → (refuse_replay c Error.refresh_revoked w).1.cache.entry (password_version_key c.user_id)
        ≡ some (record { value = w.clock; expires_at = some (w.clock + 2592000) })
  unfolding refuse_replay ◌>>=◌ ignore attempt now revoke_all set_password_version script remote
      raise put
  refuse_stamps calm = ground (arith, calm)

-- The world in which every call succeeds from now on.
abbrev pub calm : World → World
calm w = record w { outcomes = [] }

module _ (c : TokenClaims) (w : World) where
  redeem_refuses :
      w.cache.entry (refresh_key c.id) ≡ none
      → (check_password_version c.user_id c.issued_at (calm w)).0 ≡ ok tt
      → redeem_refresh c (calm w)
        ≡ accept_stored c
            (err Error.refresh_revoked)
            (record (calm w) { cache = del (refresh_key c.id) w.cache })
  unfolding redeem_refresh check_password_version validate_and_revoke take_script script ◌>>=◌
      attempt on_result on_option fail_if remote raise get
  redeem_refuses n p = ground (arith, n, p)

  abbrev after_take : World
  after_take = record (calm w) { cache = del (refresh_key c.id) w.cache }

  refuse_fails :
      (refuse_replay c Error.refresh_revoked after_take).0 ≡ err Error.session_compromised
  unfolding refuse_replay ◌>>=◌ ignore attempt now raise
  refuse_fails = refl

  accept_refuses :
      accept_stored c (err Error.refresh_revoked) after_take
      ≡ (err Error.session_compromised, (refuse_replay c Error.refresh_revoked after_take).1)
  unfolding accept_stored on_result ◌>>=◌
  accept_refuses = ground (arith, refuse_fails)

module _ {Token : Type 0} (lib : TokenLibrary Token) where
  refresh_refuses :
      (token : Token) (c : TokenClaims) (w : World)
      → parse_refresh lib w.clock token ≡ some c
      → w.cache.entry (refresh_key c.id) ≡ none
      → (check_password_version c.user_id c.issued_at (calm w)).0 ≡ ok tt
      → refresh lib (some token) (calm w) ≡ (
        err Error.session_compromised,
        (refuse_replay c Error.refresh_revoked (after_take c w)).1,
      )
  unfolding refresh exchange ◌>>=◌ now on_option
  refresh_refuses token c w e n p =
      rw e (ground (arith, redeem_refuses c w n p, accept_refuses c w))

-- The reuse of a refresh token ends every session of its user. Let a token that ParseRefresh accepts
-- come to /api/auth/refresh while its id is not in Redis, let it be no older than the last change of
-- the password, and let Redis answer. Then the answer is an error, no token of the user's family is
-- in Redis afterwards, and the password version is the present time, which refuses all tokens issued
-- before it.
pub refresh-replay :
    {Token : Type 0} (lib : TokenLibrary Token) (token : Token) (c : TokenClaims) (w : World)
    → parse_refresh lib w.clock token ≡ some c
    → w.cache.entry (refresh_key c.id) ≡ none
    → (check_password_version c.user_id c.issued_at (calm w)).0 ≡ ok tt
    → ((refresh lib (some token) (calm w)).0 ≡ err Error.session_compromised)
      × ((j t : ℕ)
          → exists (λ i. i == j) (members w.clock c.user_id w.cache) ≡ true
          → get t (refresh_key j) (refresh lib (some token) (calm w)).1.cache ≡ none)
      × ((refresh lib (some token) (calm w)).1.cache.entry (password_version_key c.user_id)
          ≡ some (record { value = w.clock; expires_at = some (w.clock + 2592000) }))
unfolding del
refresh-replay lib token c w e n p = rw (refresh_refuses lib token c w e n p) (
  refl,
  λ j t m. refuse_revokes c (after_take c w) j t refl m,
  refuse_stamps c (after_take c w) refl,
)
