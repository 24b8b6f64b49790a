-- ===== src/Redis/Sessions/Refinement.antt =====
-- The calls on Redis give the answers of the contract.
use testmellow.Prelude.{
  ℕ, ◌+◌, none, List, [], ◌∷◌, ◌≡◌, refl, ◌==◌, arith, Option-cases, Bool-cases, inl, inr, subst,
  sym,
}
use testmellow.World.Exec.{ok, World, attempt, ◌>>=◌, remote, on_option, ignore}
use testmellow.Redis.Store.{live, get, del}
use testmellow.Redis.Limits.{script}
use testmellow.Redis.Sessions.{
  register_refresh_token, validate_and_revoke, revoke, revoke_all, take_script, refresh_key,
}
use testmellow.Redis.Sessions.Contract.{
  Command, holder, holder_of, Held, owner, with_token, promised, executed, later, run, promise,
  registered, IsFresh, AllFresh,
}
use testmellow.Redis.Sessions.Simulation.{
  Refines, wait, register_step, redeem_step, cancel_step, cancel_all_step,
}

module _ (jti seconds : ℕ) (w : World) where
  redeem-answer :
      holder_of (validate_and_revoke jti (later seconds w)).0
      ≡ holder (owner (live (w.clock + seconds) (w.cache.entry (refresh_key jti))))
  unfolding validate_and_revoke take_script script ◌>>=◌ remote attempt ignore on_option get
  redeem-answer = elim (Option-cases (live (w.clock + seconds) (w.cache.entry (refresh_key jti)))) [
    | inl n ↦ ground (arith, n)
    | inr (e, q) ↦ ground (arith, q)
  ]

  redeem-clock : (validate_and_revoke jti (later seconds w)).1.clock ≡ w.clock + seconds
  unfolding validate_and_revoke take_script script ◌>>=◌ remote attempt ignore on_option get
  redeem-clock = elim (Option-cases (live (w.clock + seconds) (w.cache.entry (refresh_key jti)))) [
    | inl n ↦ ground (arith, n)
    | inr (e, q) ↦ ground (arith, q)
  ]

  redeem-cache :
      (ttl : ℕ) (used : List ℕ) (s : Held)
      → Refines ttl (w.clock + seconds) used w.cache s
      → Refines ttl
          (w.clock + seconds)
          used
          (validate_and_revoke jti (later seconds w)).1.cache
          (with_token jti none s)
  unfolding validate_and_revoke take_script script ◌>>=◌ remote attempt ignore on_option get del
  redeem-cache ttl used s r =
      elim (Option-cases (live (w.clock + seconds) (w.cache.entry (refresh_key jti)))) [
        | inl n ↦ rw n (cancel_step ttl (w.clock + seconds) used s w.cache r jti)
        | inr (e, q) ↦ elim (Bool-cases (e.value == 0)) [
          | inl z ↦ rw (q, z) (cancel_step ttl (w.clock + seconds) used s w.cache r jti)
          | inr z ↦ rw (q, z) (redeem_step ttl (w.clock + seconds) used s w.cache r jti e.value)
        ]
      ]

-- One call.
abbrev Step : (ttl : ℕ) → Command → List ℕ → World → Held → Type 0
Step ttl k used w s =
    ((executed ttl k w).0 ≡ ok (promised ttl k w.clock s).0)
    × ((executed ttl k w).1.clock ≡ w.clock)
    × Refines ttl w.clock (registered k used) (executed ttl k w).1.cache
        (promised ttl k w.clock s).1

step :
    (ttl : ℕ) (k : Command) (used : List ℕ) (s : Held) (seconds : ℕ) (w : World)
    → Refines ttl (w.clock + seconds) used w.cache s
    → IsFresh k used
    → Step ttl k used (later seconds w) s
unfolding executed promised register_refresh_token script ◌>>=◌ remote attempt revoke revoke_all
step ttl (Command.register jti user) used s seconds w r fresh =
    (refl, refl, register_step ttl (w.clock + seconds) used s w.cache r jti user fresh)
step ttl (Command.redeem jti) used s seconds w r fresh = (
  ground (arith, redeem-answer jti seconds w, r.same jti (w.clock + seconds) (omega arith)),
  redeem-clock jti seconds w,
  redeem-cache jti seconds w ttl used s r,
)
step ttl (Command.cancel jti) used s seconds w r fresh =
    (refl, refl, cancel_step ttl (w.clock + seconds) used s w.cache r jti)
step ttl (Command.cancel_all user) used s seconds w r fresh =
    (refl, refl, cancel_all_step ttl (w.clock + seconds) used s w.cache r user)

-- The code keeps the contract: over any sequence of calls of RegisterRefreshToken, all with the same
-- lifetime, ValidateAndRevokeRefreshToken, RevokeRefreshToken and RevokeAllUserRefreshTokens, with
-- any time between them, in which Redis answers and no token id is registered twice, the answers are
-- those of a table of who holds which token until when, provided that they start from keys and sets
-- that agree with that table.
pub run-promise :
    (ttl : ℕ) (cs : List (ℕ × Command)) (used : List ℕ) (s : Held) (w : World)
    → Refines ttl w.clock used w.cache s
    → AllFresh used cs
    → run ttl cs w ≡ promise ttl cs w.clock s
unfolding run promise
run-promise ttl [] used s w r fresh = refl
run-promise ttl ((seconds, k) ∷ cs) used s w r (f, fs) =
    let k' = step ttl k used s seconds w (wait ttl w.clock seconds used w.cache s r) f in
    let after = (executed ttl k (later seconds w)).1 in
    let next = (promised ttl k (w.clock + seconds) s).1 in
    let r' = subst (λ n. Refines ttl n (registered k used) after.cache next) (sym k'.1) k'.2 in
    let rest = run-promise ttl cs (registered k used) next after r' fs in cc (k'.0, k'.1, rest)
