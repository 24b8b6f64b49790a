-- ===== src/World/Exec.antt =====
-- Go functions that use the database, Redis and remote services and may return an error. Every call
-- that leaves the process takes the next outcome of a list that the environment chooses, so a
-- statement about all worlds is one about all failures at all points.
use testmellow.Prelude.{
  ℕ, zero, suc, ◌+◌, Bool, true, false, Option, none, some, List, [], ◌∷◌, ◌≡◌, refl, ◌⊎◌, inl, inr,
}
use testmellow.World.Rows.{Db, Job, RemnaCall}
use testmellow.Redis.Store.{Cache}

-- What an external call does: it answers (with a number, where it returns a value that the
-- environment chooses), or it fails, in a serializable transaction maybe with SQLSTATE 40001.
pub data Outcome : Type 0 where
  done : ℕ → Outcome
  io_error serialization_error : Outcome

pub data Error : Type 0 where
  db_error serialization_failure out_of_range unique_violation foreign_key_violation : Error
  bad_payload bad_amount user_not_found insufficient_balance payment_not_found : Error
  promo_not_found promo_expired promo_unavailable promo_used promo_exhausted : Error
  discount_active bad_quantity item_not_found out_of_stock unknown_plan : Error
  no_subscription expansion_active trial_used rate_limited referrer_not_found : Error
  name_length short_password name_taken too_many_accounts bad_credentials banned : Error
  bad_gateway_answer device_not_found refresh_revoked forbidden : Error
  invalid_request session_expired session_compromised challenge_expired server_error : Error
  telegram_linked no_telegram code_unknown tfa_blocks_reset ticket_limit ticket_not_found : Error
  ticket_closed : Error

pub data Result (A : Type 0) : Type 0 where
  ok : A → Result A
  err : Error → Result A

pub Result_cases :
    {A : Type 0} (r : Result A) → ((a : A) × (r ≡ ok a)) ⊎ ((e : Error) × (r ≡ err e))
Result_cases (ok a) = inl (a, refl)
Result_cases (err e) = inr (e, refl)

-- The process and what it talks to. `telegram_enabled`: the worker has a bot token.
pub record World : Type 0 where
  pub db : Db
  pub cache : Cache
  pub queue : List Job
  pub remna : List RemnaCall
  pub outcomes : List Outcome
  pub clock : ℕ
  pub next_id : ℕ
  pub telegram_enabled : Bool

abbrev pub Exec : Type 0 → Type 0
Exec A = World → Result A × World

module _ {A : Type 0} where
  unfoldable pub pure : A → Exec A
  pure a w = (ok a, w)

  unfoldable pub raise : Error → Exec A
  raise e w = (err e, w)

  unfoldable pub gets : (World → A) → Exec A
  gets f w = (ok (f w), w)

  unfoldable pub lift : Result A → Exec A
  lift r w = (r, w)

  -- The result as a value, for `_ = f()` and `if err != nil`.
  unfoldable pub attempt : Exec A → Exec (Result A)
  attempt m w = let (r, w') = m w in (ok r, w')

  -- `defer tx.Rollback(ctx)`: after an error the database is what it was at the start.
  abbrev rolled_back : Db → Result A × World → Result A × World
  rolled_back before (ok a, w) = (ok a, w)
  rolled_back before (err e, w) = (err e, record w { db = before })

  unfoldable pub atomically : Exec A → Exec A
  atomically m w = rolled_back w.db (m w)

module _ {A B : Type 0} where
  abbrev continue : Result A → (A → Exec B) → Exec B
  continue (ok a) f w = f a w
  continue (err e) f w = (err e, w)

  infixl 5 ◌>>=◌ ◌>>◌
  unfoldable pub ◌>>=◌ : Exec A → (A → Exec B) → Exec B
  unfolding pure raise gets lift
  ◌>>=◌ m f w = let (r, w') = m w in continue r f w'

  abbrev pub ◌>>◌ : Exec A → Exec B → Exec B
  m >> k = m >>= λ _. k

  -- `if x == nil { … } else { … }`
  unfoldable pub on_option : Option A → Exec B → (A → Exec B) → Exec B
  on_option none m f = m
  on_option (some a) m f = f a

  unfoldable pub on_result : Result A → (Error → Exec B) → (A → Exec B) → Exec B
  on_result (ok a) m f = f a
  on_result (err e) m f = m e

abbrev pub next_outcome : List Outcome → Outcome
next_outcome [] = done 0
next_outcome (o ∷ os) = o

abbrev pub later_outcomes : List Outcome → List Outcome
later_outcomes [] = []
later_outcomes (o ∷ os) = os

abbrev pub answer : Outcome → Result ℕ
answer (done n) = ok n
answer io_error = err Error.db_error
answer serialization_error = err Error.serialization_failure

-- One call of an external service.
unfoldable pub remote : Exec ℕ
remote w = (answer (next_outcome w.outcomes), record w { outcomes = later_outcomes w.outcomes })

unfoldable pub fail_if : Bool → Error → Exec (Unit {0})
fail_if true e = raise e
fail_if false e = pure tt

unfoldable pub when : Bool → Exec (Unit {0}) → Exec (Unit {0})
when true m = m
when false m = pure tt

-- `for _, x := range xs { … }`
unfoldable pub for_each : {A : Type 0} → List A → (A → Exec (Unit {0})) → Exec (Unit {0})
for_each [] f = pure tt
for_each (x ∷ xs) f = f x >> for_each xs f

-- A read of the database, and a write that changes it by a function.
unfoldable pub query : {A : Type 0} → (Db → A) → Exec A
unfolding ◌>>=◌ remote
query f = remote >> gets (λ w. f w.db)

unfoldable pub modify_db : (Db → Db) → Exec (Unit {0})
modify_db f w = (ok tt, record w { db = f w.db })

unfoldable pub execute : (Db → Db) → Exec (Unit {0})
unfolding ◌>>=◌ remote modify_db
execute f = remote >> modify_db f

unfoldable pub now : Exec ℕ
unfolding gets
now = gets (λ w. w.clock)

-- `uuid.New()`
unfoldable pub new_id : Exec ℕ
new_id w = (ok w.next_id, record w { next_id = w.next_id + 1 })

-- `Enqueue`: `LPUSH` of the job.
push_job : Job → Exec (Unit {0})
push_job j w = (ok tt, record w { queue = j ∷ w.queue })

unfoldable pub enqueue : Job → Exec (Unit {0})
unfolding ◌>>=◌ remote push_job
enqueue j = remote >> push_job j

-- A request to Remnawave, recorded if the panel accepts it.
abbrev pub log_call : RemnaCall → Exec (Unit {0})
log_call c w = (ok tt, record w { remna = c ∷ w.remna })

unfoldable pub remna : RemnaCall → Exec ℕ
unfolding ◌>>=◌ remote
remna c = do n ← remote; log_call c; pure n

-- `BeginTx` … `Commit` with the deferred rollback.
unfoldable pub transaction : {A : Type 0} → Exec A → Exec A
unfolding ◌>>=◌ remote atomically
transaction m = atomically (do remote; a ← m; remote; pure a)

-- `_ = f()`
unfoldable pub ignore : {A : Type 0} → Exec A → Exec (Unit {0})
unfolding ◌>>=◌ attempt
ignore m = do attempt m; pure tt

abbrev pub retry_on : {A : Type 0} → Exec A → Result A → Exec A
retry_on again (ok a) = pure a
retry_on again (err Error.serialization_failure) = again
retry_on again (err e) = raise e

-- The loop that repeats a failed transaction on a serialization failure, at most `n` times.
unfoldable pub retry : {A : Type 0} → ℕ → Exec A → Exec A
unfolding ◌>>=◌ attempt
retry zero m = m
retry (suc n) m = attempt m >>= retry_on (retry n m)
