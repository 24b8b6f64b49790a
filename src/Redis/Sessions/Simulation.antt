-- ===== src/Redis/Sessions/Simulation.antt =====
-- What relates the keys and sets in Redis to the contract, and the commands that keep it.
use testmellow.Prelude.{
  ℕ, ◌+◌, true, false, none, some, List, [], ◌∷◌, ◌≡◌, refl, ◌==◌, if◌then◌else◌, exists, arith,
  Option-cases, Bool-cases, inl, inr, ◌≤◌, ◌<◌, Option,
}
use testmellow.Redis.Store.{Entry, Cache, live, put, del, is_live}
use testmellow.Redis.Sessions.{
  register_script, del_tokens, set_family, refresh_key, without, members, is_unexpired,
}
use testmellow.Redis.Sessions.Contract.{Command, Held, with_token, promised}

exists-without :
    (j x : ℕ) (ys : List ℕ)
    → exists (λ i. i == j) (without x ys) ≡ (if x == j then false else exists (λ i. i == j) ys)
exists-without j x [] = ground arith
exists-without j x (y ∷ ys) = ground (arith, exists-without j x ys)

del_tokens-entry :
    (j : ℕ) (js : List ℕ) (c : Cache)
    → (del_tokens js c).entry (refresh_key j)
      ≡ (if exists (λ i. i == j) js then none else c.entry (refresh_key j))
unfolding del_tokens del
del_tokens-entry j [] c = refl
del_tokens-entry j (i ∷ is) c = ground (arith, del_tokens-entry j is (del (refresh_key i) c))

del_tokens-sets : (u : ℕ) (js : List ℕ) (c : Cache) → (del_tokens js c).sets u ≡ c.sets u
unfolding del_tokens del
del_tokens-sets u [] c = refl
del_tokens-sets u (i ∷ is) c = del_tokens-sets u is (del (refresh_key i) c)

del_tokens-ends : (u : ℕ) (js : List ℕ) (c : Cache) → (del_tokens js c).set_ends u ≡ c.set_ends u
unfolding del_tokens del
del_tokens-ends u [] c = refl
del_tokens-ends u (i ∷ is) c = del_tokens-ends u is (del (refresh_key i) c)

-- At every time from now on the keys are the tokens held, the set of a user has all of that user's
-- live tokens and no other user's tokens, only registered ids stand in the sets, and no token lives
-- for more than `ttl` seconds.
pub record Refines (ttl now : ℕ) (used : List ℕ) (c : Cache) (s : Held) : Type 0 where
  pub same : (j t : ℕ) → now ≤ t → live t (c.entry (refresh_key j)) ≡ live t (s j)
  pub covered :
      (j t : ℕ) (e : Entry)
      → now ≤ t
      → s j ≡ some e
      → is_live t e ≡ true
      → exists (λ i. i == j) (members t e.value c) ≡ true
  pub own :
      (j u : ℕ) (e : Entry) → exists (λ i. i == j) (c.sets u) ≡ true → s j ≡ some e → e.value ≡ u
  pub known : (j u : ℕ) → exists (λ i. i == j) (c.sets u) ≡ true → exists (λ i. i == j) used ≡ true
  pub brief : (j t : ℕ) (e : Entry) → s j ≡ some e → is_live t e ≡ true → t < now + ttl

pub wait :
    (ttl now seconds : ℕ) (used : List ℕ) (c : Cache) (s : Held)
    → Refines ttl now used c s
    → Refines ttl (now + seconds) used c s
wait ttl now seconds used c s r = record {
  same = λ j t l. r.same j t (omega arith);
  covered = λ j t e l. r.covered j t e (omega arith);
  own = r.own;
  known = r.known;
  brief = λ j t e h v. omega (arith, r.brief j t e h v);
}

-- What is live at a time was live before, and so was the set that had it.
live-earlier : (now t : ℕ) (e : Entry) → now ≤ t → is_live t e ≡ true → is_live now e ≡ true
live-earlier now t e l h = elim (Option-cases e.expires_at) [
  | inl n ↦ ground (arith, n)
  | inr (x, q) ↦ ground (arith, q, h)
]

unexpired-earlier :
    (now t : ℕ) (o : Option ℕ) → now ≤ t → is_unexpired t o ≡ true → is_unexpired now o ≡ true
unexpired-earlier now t none l h = refl
unexpired-earlier now t (some x) l h = ground arith

module _ (ttl now : ℕ) (used : List ℕ) (s : Held) (c : Cache) (r : Refines ttl now used c s) where
  -- A member of an unexpired set stands in the set.
  member-stored :
      (j t u : ℕ)
      → exists (λ i. i == j) (members t u c) ≡ true
      → (is_unexpired t (c.set_ends u) ≡ true) × (exists (λ i. i == j) (c.sets u) ≡ true)
  member-stored j t u h = ground arith

  pub register_step :
      (jti user : ℕ)
      → exists (λ i. i == jti) used ≡ false
      → Refines ttl now
          (jti ∷ used)
          (register_script jti user ttl now c).1
          (promised ttl (Command.register jti user) now s).1
  unfolding register_script put promised
  register_step jti user fresh = record {
    same = λ j t l. ground (arith, r.same j t l);
    covered = λ j t e l h v. ground (
      arith,
      h,
      v,
      r.covered j t e l,
      r.covered j now e,
      live-earlier now t e l v,
      r.brief j t e,
      exists-without j jti (members now user c),
    );
    own = λ j u e m h. ground (
      arith,
      r.own j u e,
      r.known jti u,
      fresh,
      exists-without j jti (members now user c),
      member-stored j now user,
    );
    known = λ j u m.
        ground
          (arith, r.known j u, exists-without j jti (members now user c), member-stored j now user);
    brief = λ j t e h v. ground (arith, h, v, r.brief j t e);
  }

  pub redeem_step :
      (jti user : ℕ)
      → Refines ttl now used
          (set_family user (without jti (members now user c)) (del (refresh_key jti) c))
          (with_token jti none s)
  unfolding del
  redeem_step jti user = record {
    same = λ j t l. ground (arith, r.same j t l);
    covered = λ j t e l h v. ground (
      arith,
      h,
      v,
      r.covered j t e l,
      unexpired-earlier now t (c.set_ends user) l,
      exists-without j jti (members now user c),
    );
    own = λ j u e m h.
        ground
          (arith, r.own j u e, exists-without j jti (members now user c), member-stored j now user);
    known = λ j u m.
        ground
          (arith, r.known j u, exists-without j jti (members now user c), member-stored j now user);
    brief = λ j t e h v. ground (arith, h, v, r.brief j t e);
  }

  pub cancel_step :
      (jti : ℕ) → Refines ttl now used (del (refresh_key jti) c) (with_token jti none s)
  unfolding del
  cancel_step jti = record {
    same = λ j t l. ground (arith, r.same j t l);
    covered = λ j t e l h v. ground (arith, h, v, r.covered j t e l);
    own = λ j u e m h. ground (arith, r.own j u e);
    known = r.known;
    brief = λ j t e h v. ground (arith, h, v, r.brief j t e);
  }

  pub cancel_all_step :
      (user : ℕ)
      → Refines ttl now used
          (set_family user [] (del_tokens (members now user c) c))
          (promised ttl (Command.cancel_all user) now s).1
  unfolding promised
  cancel_all_step user = record {
    same = λ j t l. elim (Option-cases (s j)) [
      | inl n ↦ ground (arith, r.same j t l, n, del_tokens-entry j (members now user c) c)
      | inr (e, q) ↦ elim (Bool-cases (is_live t e)) [
        | inl v ↦ ground (
          arith,
          r.same j t l,
          q,
          v,
          r.covered j now e,
          live-earlier now t e l v,
          r.own j user e,
          member-stored j now user,
          del_tokens-entry j (members now user c) c,
        )
        | inr v ↦ ground (arith, r.same j t l, q, v, del_tokens-entry j (members now user c) c)
      ]
    ];
    covered = λ j t e l h v. elim (Option-cases (s j)) [
      | inl n ↦ ground (arith, h, n)
      | inr (e', q) ↦ ground (
        arith,
        h,
        q,
        v,
        r.covered j t e' l,
        del_tokens-sets e.value (members now user c) c,
        del_tokens-ends e.value (members now user c) c,
      )
    ];
    own = λ j u e m h. elim (Option-cases (s j)) [
      | inl n ↦ ground (arith, h, n)
      | inr (e', q) ↦
          ground (arith, m, h, q, r.own j u e', del_tokens-sets u (members now user c) c)
    ];
    known = λ j u m. ground (arith, m, r.known j u, del_tokens-sets u (members now user c) c);
    brief = λ j t e h v. elim (Option-cases (s j)) [
      | inl n ↦ ground (arith, h, n)
      | inr (e', q) ↦ ground (arith, h, q, v, r.brief j t e')
    ];
  }

-- GETDEL, and the set of the token's user where that is not 0.
