-- ===== src/Worker/Queue/Bounds.antt =====
-- Every job comes to an end.
use testmellow.Prelude.{ℕ, ◌≤◌, ◌≡◌, Bool, some, arith}
use testmellow.Worker.Queue.{requeue_or_dead, Fate, deliver}

-- A bound on a fate, and that it is one.
abbrev pub EndsWithin : (runs waited : ℕ) → Fate → Type 0
EndsWithin runs waited (Fate.processed n t) = (n ≤ runs) × (t ≤ waited)
EndsWithin runs waited (Fate.dead_lettered n t) = (n ≡ runs) × (t ≡ waited)
EndsWithin runs waited Fate.out_of_fuel = ⊥

-- A job without a counter is run at most 6 times, whatever its handler does, and waits at most
-- 62 seconds between its runs; it is dead-lettered only after exactly 6 runs and 62 seconds. So
-- fuel 6 is enough.
pub deliver-ends : (succeeds : ℕ → Bool) → EndsWithin 6 62 (deliver succeeds 6 0 0 (some 0))
unfolding deliver requeue_or_dead
deliver-ends succeeds = ground arith
