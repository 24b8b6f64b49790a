-- ===== src/Http/Rotation.antt =====
-- handlers.go, `Refresh`: a refresh token is exchanged once, and a second use ends all sessions.
use testmellow.Prelude.{
  ℕ, ◌<◌, ◌≡◌, refl, Bool, none, some, arith, ap, Option-cases, Bool-cases, ◌==◌, ◌⊎◌, inl, inr,
}
use testmellow.World.Exec.{
  Error, Result, Result_cases, ok, err, World, raise, ◌>>=◌, attempt, on_result, on_option, remote,
  now, ignore, new_id, query, fail_if,
}
use testmellow.World.Bind.{bind_ok}
use testmellow.Redis.Sessions.Revocation.{taken, granted, validate_and_revoke_ids}
use testmellow.Redis.Store.{Entry, get, put}
use testmellow.Redis.Limits.{script}
use testmellow.Redis.Sessions.{
  refresh_key, validate_and_revoke, check_password_version, banned_check, register_refresh_token,
}
use testmellow.Repo.Users.{get_by_id}
use testmellow.Jwt.{
  TokenLibrary, TokenClaims, IsFaithful, parse_refresh, jwt_issuer, audience_refresh,
}
use testmellow.Http.Auth.{
  refresh, exchange, redeem_refresh, admin_or, refuse_replay, accept_stored, issue_tokens, Tokens,
}

check_same :
    (user issued : ℕ) (w : World)
    → ((check_password_version user issued w).1.cache ≡ w.cache)
      × ((check_password_version user issued w).1.next_id ≡ w.next_id)
      × ((check_password_version user issued w).1.clock ≡ w.clock)
unfolding check_password_version script ◌>>=◌ attempt on_result fail_if remote
check_same user issued w = (ground arith, ground arith, ground arith)

banned_same :
    (user : ℕ) (w : World)
    → ((banned_check user w).1.cache ≡ w.cache) × ((banned_check user w).1.next_id ≡ w.next_id)
unfolding banned_check script ◌>>=◌ attempt on_result fail_if remote
banned_same user w = (ground arith, ground arith)

-- A replay never comes to a user.
refused :
    (c : TokenClaims) (e : Error) (w : World) → (d : Error) × ((refuse_replay c e w).0 ≡ err d)
unfolding refuse_replay ◌>>=◌ ignore attempt now
refused c Error.refresh_revoked w = (Error.session_compromised, ground arith)
refused c e w = (Error.session_expired, refl)

by_value : (x u id : ℕ) → x ≡ u → (u ≡ 0) ⊎ (u ≡ id) → (x ≡ 0) ⊎ (x ≡ id)
by_value x u id e (inl z) = inl (omega arith)
by_value x u id e (inr s) = inr (omega arith)

module _ (c : TokenClaims) where
  owner : (u : ℕ) (w : World) → (accept_stored c (ok u) w).0 ≡ ok tt → (u ≡ 0) ⊎ (u ≡ c.user_id)
  unfolding accept_stored ◌>>=◌ on_result ignore attempt
  owner u w h = elim (Bool-cases (u == 0)) [
    | inl z ↦ inl (ground arith)
    | inr z ↦ elim (Bool-cases (u == c.user_id)) [
      | inl s ↦ inr (ground arith)
      | inr s ↦ ground (arith, h, z, s)
    ]
  ]

  accepted :
      (r : Result ℕ) (w : World)
      → (accept_stored c r w).0 ≡ ok tt
      → (u : ℕ) × (r ≡ ok u)
        × ((u ≡ 0) ⊎ (u ≡ c.user_id))
        × ((accept_stored c r w).1.cache ≡ w.cache)
        × ((accept_stored c r w).1.next_id ≡ w.next_id)
  unfolding accept_stored ◌>>=◌ on_result ignore attempt
  accepted (ok u) w h =
      let (p, q) = banned_same c.user_id w in
      (u, refl, owner u w h, ground (arith, p), ground (arith, q))
  accepted (err e) w h = ground (arith, (refused c e w).1, h)

  -- What an exchange that goes on has found and left.
  redeemed :
      (w : World)
      → (redeem_refresh c w).0 ≡ ok tt
      → (e : Entry) × (get w.clock (refresh_key c.id) w.cache ≡ some e)
        × ((e.value ≡ 0) ⊎ (e.value ≡ c.user_id))
        × ((redeem_refresh c w).1.cache.entry (refresh_key c.id) ≡ none)
        × ((redeem_refresh c w).1.next_id ≡ w.next_id)
  unfolding redeem_refresh attempt
  redeemed w h =
      let b = bind_ok (check_password_version c.user_id c.issued_at) _ w tt h in
      let d = bind_ok (attempt (validate_and_revoke c.id)) _ _ tt b.second in
      let v = (check_password_version c.user_id c.issued_at w).1 in
      let same = check_same c.user_id c.issued_at w in
      let a = accepted d.value (validate_and_revoke c.id v).1 d.second in
      let r : (validate_and_revoke c.id v).0 ≡ ok a.0 = cc (d.first, a.1) in
      let g = granted c.id v a.0 r in
      (
        g.0,
        cc (g.1, same.0, same.2),
        by_value g.0.value a.0 c.user_id g.2 a.2,
        cc (b.world, d.world, a.3, taken c.id v a.0 r),
        cc (b.world, d.world, a.4, same.1, validate_and_revoke_ids c.id v),
      )

-- Without the entry nothing is exchanged.
unknown :
    (c : TokenClaims) (w : World)
    → w.cache.entry (refresh_key c.id) ≡ none
    → (e : Error) × ((redeem_refresh c w).0 ≡ err e)
unfolding get
unknown c w n = elim (Result_cases (redeem_refresh c w).0) [
  | inr (e, q) ↦ (e, q)
  | inl (a, q) ↦ let r = redeemed c w q in absurd (ground (arith, n, r.1))
]

module _ {Token : Type 0} (lib : TokenLibrary Token) where
  issue_leaves :
      (id : ℕ) (admin : Bool) (jti : ℕ) (w : World)
      → jti < w.next_id
      → w.cache.entry (refresh_key jti) ≡ none
      → (issue_tokens lib id admin w).1.cache.entry (refresh_key jti) ≡ none
  unfolding issue_tokens ◌>>=◌ on_option new_id now ignore attempt register_refresh_token script
      remote put
  issue_leaves id admin jti w fresh e = ground (arith, fresh, e)

  get_same :
      (id : ℕ) (w : World)
      → ((get_by_id id w).1.cache ≡ w.cache) × ((get_by_id id w).1.next_id ≡ w.next_id)
  unfolding get_by_id query ◌>>=◌ remote
  get_same id w = (ground arith, ground arith)

  exchanged :
      (c : TokenClaims) (w : World) (t : Tokens Token)
      → (exchange lib c w).0 ≡ ok t
      → c.id < w.next_id
      → (e : Entry) × (get w.clock (refresh_key c.id) w.cache ≡ some e)
        × ((e.value ≡ 0) ⊎ (e.value ≡ c.user_id))
        × ((exchange lib c w).1.cache.entry (refresh_key c.id) ≡ none)
  unfolding exchange attempt
  exchanged c w t h fresh =
      let b = bind_ok (redeem_refresh c) _ w t h in
      let d = bind_ok (attempt (get_by_id c.user_id)) _ _ t b.second in
      let r = redeemed c w b.first in
      let s = get_same c.user_id (redeem_refresh c w).1 in
      let v = (get_by_id c.user_id (redeem_refresh c w).1).1 in
      let l : v.cache.entry (refresh_key c.id) ≡ none = cc (s.0, r.3) in
      let n : c.id < v.next_id = omega (arith, s.1, r.4) in
      (
        r.0,
        r.1,
        r.2,
        cc (b.world, d.world, issue_leaves c.user_id (admin_or c.is_admin d.value) c.id v n l),
      )

  refresh_is :
      (token : Token) (c : TokenClaims) (w : World)
      → parse_refresh lib w.clock token ≡ some c
      → refresh lib (some token) w ≡ exchange lib c w
  unfolding refresh ◌>>=◌ now on_option
  refresh_is token c w e = rw e refl

  refused_token :
      (token : Token) (w : World)
      → parse_refresh lib w.clock token ≡ none
      → refresh lib (some token) w ≡ (err Error.session_expired, w)
  unfolding refresh ◌>>=◌ now on_option raise
  refused_token token w e = rw e refl

  read_back :
      (lawful : IsFaithful lib) (c d : TokenClaims) (token : Token) (t : ℕ)
      → lib.sign c ≡ some token
      → parse_refresh lib t token ≡ some d
      → d ≡ c
  unfolding parse_refresh
  read_back lawful c d token t s e =
      elim (Option-cases (lib.parse t jwt_issuer audience_refresh token)) [
        | inl n ↦ ground (arith, n, e)
        | inr (x, p) ↦
            ground (arith, p, e, lawful.same_claims c x token t jwt_issuer audience_refresh s p)
      ]

  not_again :
      (c : TokenClaims) (w : World)
      → w.cache.entry (refresh_key c.id) ≡ none
      → (e : Error) × ((exchange lib c w).0 ≡ err e)
  unfolding exchange ◌>>=◌
  not_again c w n = let (e, q) = unknown c w n in (e, ground (arith, q))

  once :
      (lawful : IsFaithful lib) (c : TokenClaims) (token : Token) (w : World)
      → lib.sign c ≡ some token
      → w.cache.entry (refresh_key c.id) ≡ none
      → (e : Error) × ((refresh lib (some token) w).0 ≡ err e)
  once lawful c token w s n = elim (Option-cases (parse_refresh lib w.clock token)) [
    | inl p ↦ (
      Error.session_expired,
      ap (λ (r : Result (Tokens Token) × World). r.0) (refused_token token w p),
    )
    | inr (d, p) ↦
        let same = read_back lawful c d token w.clock s p in
        let (e, q) = not_again c w n in (e, cc (refresh_is token d w p, same, q))
  ]

-- A refresh token is exchanged once. Let a request to /api/auth/refresh with a token that the service
-- signed earlier get new tokens. Then Redis held the id of the token, for its user, and a second
-- request with the same token, at any later time, under any failures, with no other command on Redis
-- between them, gets an error.
pub refresh-once :
    {Token : Type 0} (lib : TokenLibrary Token) (lawful : IsFaithful lib) (c : TokenClaims)
    (token : Token) (w w' : World) (t : Tokens Token)
    → lib.sign c ≡ some token
    → c.id < w.next_id
    → (refresh lib (some token) w).0 ≡ ok t
    → w'.cache ≡ (refresh lib (some token) w).1.cache
    → ((e : Entry) × (get w.clock (refresh_key c.id) w.cache ≡ some e)
        × ((e.value ≡ 0) ⊎ (e.value ≡ c.user_id)))
      × ((e : Error) × ((refresh lib (some token) w').0 ≡ err e))
refresh-once lib lawful c token w w' t s fresh h same =
    elim (Option-cases (parse_refresh lib w.clock token)) [
      | inl p ↦ absurd (ground (arith, refused_token lib token w p, h))
      | inr (d, p) ↦
          let e = read_back lib lawful c d token w.clock s p in
          let i : refresh lib (some token) w ≡ exchange lib c w =
            cc (refresh_is lib token d w p, e) in
          let x = exchanged lib c w t (cc (i, h)) fresh in
          ((x.0, x.1, x.2), once lib lawful c token w' s (cc (same, i, x.3)))
    ]
