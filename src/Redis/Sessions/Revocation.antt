-- ===== src/Redis/Sessions/Revocation.antt =====
-- Refresh tokens and sessions end when they should.
use testmellow.Prelude.{
  ℕ, ◌≡◌, refl, ap, ◌∙◌, Option-cases, true, none, some, List, [], ◌∷◌, arith, if◌then◌else◌, ◌==◌,
  exists, inl, inr,
}
use testmellow.World.Exec.{
  Error, Result_cases, ok, err, World, ◌>>=◌, remote, attempt, on_option, ignore,
}
use testmellow.Redis.Store.{Cache, Entry, get, del, get-del, key_eq_refl}
use testmellow.Redis.Limits.{script}
use testmellow.Redis.Sessions.{
  refresh_key, take_script, validate_and_revoke, del_tokens, revoke_all, members,
}

pub get-del_tokens :
    (now : ℕ) (j : ℕ) (js : List ℕ) (c : Cache)
    → get now (refresh_key j) (del_tokens js c)
      ≡ (if exists (λ i. i == j) js then none else get now (refresh_key j) c)
unfolding del_tokens
get-del_tokens now j [] c = refl
get-del_tokens now j (i ∷ is) c = ground (
  arith,
  get-del_tokens now j is (del (refresh_key i) c),
  get-del now (refresh_key i) (refresh_key j) c,
)

pub taken :
    (jti : ℕ) (w : World) (user : ℕ)
    → (validate_and_revoke jti w).0 ≡ ok user
    → (validate_and_revoke jti w).1.cache.entry (refresh_key jti) ≡ none
unfolding validate_and_revoke take_script script ◌>>=◌ remote del ignore attempt on_option
taken jti w user h = elim (Option-cases (get w.clock (refresh_key jti) w.cache)) [
  | inl n ↦ ground (arith, key_eq_refl (refresh_key jti))
  | inr (e, q) ↦ ground (arith, key_eq_refl (refresh_key jti))
]

-- The token was in Redis, with its user.
pub granted :
    (jti : ℕ) (w : World) (user : ℕ)
    → (validate_and_revoke jti w).0 ≡ ok user
    → (e : Entry) × (get w.clock (refresh_key jti) w.cache ≡ some e) × (e.value ≡ user)
unfolding validate_and_revoke take_script script ◌>>=◌ remote ignore attempt on_option
granted jti w user h = elim (Option-cases (get w.clock (refresh_key jti) w.cache)) [
  | inl n ↦ ground (arith, n, h)
  | inr (e, q) ↦ (e, q, ground (arith, q, h))
]

pub validate_and_revoke_ids :
    (jti : ℕ) (w : World) → (validate_and_revoke jti w).1.next_id ≡ w.next_id
unfolding validate_and_revoke take_script script ◌>>=◌ remote ignore attempt on_option
validate_and_revoke_ids jti w = ground arith

pub absent :
    (jti : ℕ) (w : World)
    → w.cache.entry (refresh_key jti) ≡ none
    → (e : Error) × ((validate_and_revoke jti w).0 ≡ err e)
unfolding validate_and_revoke take_script script ◌>>=◌ on_option get
absent jti w h = elim (Result_cases (remote w).0) [
  | inl (n, r) ↦ (Error.refresh_revoked, ground (arith, h, r))
  | inr (c, r) ↦ (c, ground (arith, h, r))
]

-- A refresh token is used once: a call of ValidateAndRevokeRefreshToken that returns a user has
-- removed the token from Redis, so that a second call, at any later time with no other command
-- between them, returns an error.
validate_and_revoke-once :
    (jti : ℕ) (w w' : World) (user : ℕ)
    → (validate_and_revoke jti w).0 ≡ ok user
    → w'.cache ≡ (validate_and_revoke jti w).1.cache
    → (e : Error) × ((validate_and_revoke jti w').0 ≡ err e)
validate_and_revoke-once jti w w' user h same =
    absent jti w' (ap (λ c. c.entry (refresh_key jti)) same ∙ taken jti w user h)

-- RevokeAllUserRefreshTokens, when it returns no error, has removed every refresh token of the
-- user's set: none of them is in Redis afterwards.
revoke_all-revokes :
    (user j : ℕ) (w : World) (t : ℕ)
    → (revoke_all user w).0 ≡ ok tt
    → exists (λ i. i == j) (members w.clock user w.cache) ≡ true
    → get t (refresh_key j) (revoke_all user w).1.cache ≡ none
unfolding revoke_all script ◌>>=◌ remote get
revoke_all-revokes user j w t h m =
    ground (arith, get-del_tokens t j (members w.clock user w.cache) w.cache)
