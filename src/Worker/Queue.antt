-- ===== src/Worker/Queue.antt =====
-- worker.go: `loop` and `requeueOrDead`, for one job.
pub mod Bounds
use testmellow.Prelude.{
  ℕ, zero, suc, ◌+◌, ◌^◌, ◌≤◌, ◌<◌, ◌≡◌, refl, Bool, true, false, Option, none, some, arith, ltb,
  if◌then◌else◌,
}

-- `maxJobRetries`
abbrev max_job_retries : ℕ
max_job_retries = 5

-- What happens to a job whose handler failed: it goes to "dead:<queue>", or back to its queue with a
-- counter, after a backoff in seconds.
pub data Verdict : Type 0 where
  dead : Verdict
  again : (retries backoff : ℕ) → Verdict

-- `requeueOrDead`: the payload is `none` where it is no JSON object, else its `_retries`, 0 if absent.
unfoldable pub requeue_or_dead : Option ℕ → Verdict
requeue_or_dead none = Verdict.dead
requeue_or_dead (some r) =
    if ltb max_job_retries (r + 1) then Verdict.dead else Verdict.again (r + 1) (2 ^ (r + 1))

-- The end of a job, with the number of runs of its handler and the seconds it waited.
pub data Fate : Type 0 where
  processed dead_lettered : (runs waited : ℕ) → Fate
  out_of_fuel : Fate

abbrev after_failure : Verdict → (runs waited : ℕ) → (ℕ → ℕ → Fate) → Fate
after_failure Verdict.dead runs waited next = Fate.dead_lettered runs waited
after_failure (Verdict.again retries backoff) runs waited next = next retries backoff

-- `loop` on one job that has been run `runs` times: `succeeds` says at which runs, counted from 0,
-- the handler returns no error.
unfoldable pub deliver : (succeeds : ℕ → Bool) → (fuel runs waited : ℕ) → Option ℕ → Fate
unfolding requeue_or_dead
deliver succeeds zero runs waited payload = Fate.out_of_fuel
deliver succeeds (suc fuel) runs waited payload =
    if succeeds runs
    then Fate.processed (runs + 1) waited
    else after_failure (requeue_or_dead payload) (runs + 1) waited
        (λ retries backoff. deliver succeeds fuel (runs + 1) (waited + backoff) (some retries))
