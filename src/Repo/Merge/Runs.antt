-- ===== src/Repo/Merge/Runs.antt =====
-- The statements of a merge in its transaction: what it has done when no statement fails, and that none
-- fails if no constraint refuses it.
use testmellow.Prelude.{
  ℕ, ◌≡◌, refl, ap, ◌∙◌, none, some, List, [], ◌∷◌, arith, Option-cases, inl, inr, subst, find,
}
use testmellow.World.Rows.{Db, User}
use testmellow.World.Exec.{
  Result_cases, ok, World, ◌>>=◌, remote, query, on_option, for_each, modify_db, raise, pure, Exec,
  Error,
}
use testmellow.World.Bind.{bind_ok, transaction-ok}
use testmellow.Repo.Merge.{run_statement, merge_statements, merge_users}
use testmellow.Repo.Merge.Statements.{Statement}

abbrev pub apply_all : List Statement → Db → Db
apply_all [] d = d
apply_all (s ∷ ss) d = apply_all ss (s.change d)

abbrev pub AllClear : List Statement → Db → Type 0
AllClear [] d = Unit
AllClear (s ∷ ss) d = (s.refused d ≡ none) × AllClear ss (s.change d)

run_statement-ok :
    (s : Statement) (w : World)
    → (run_statement s w).0 ≡ ok tt
    → (s.refused w.db ≡ none) × ((run_statement s w).1.db ≡ s.change w.db)
unfolding run_statement ◌>>=◌ remote query on_option modify_db raise
run_statement-ok s w h = elim (Option-cases (s.refused w.db)) [
  | inl n ↦ (n, ground (arith, n, h))
  | inr (e, q) ↦ absurd (ground (arith, q, h))
]

pub for_each-ok :
    (ss : List Statement) (w : World)
    → (for_each ss run_statement w).0 ≡ ok tt
    → AllClear ss w.db × ((for_each ss run_statement w).1.db ≡ apply_all ss w.db)
unfolding for_each pure
for_each-ok [] w h = (tt, refl)
for_each-ok (s ∷ ss) w h =
    let b = bind_ok (run_statement s) (λ _. for_each ss run_statement) w tt h in
    let first : (run_statement s w).0 ≡ ok tt = b.first in
    let (e, q) = run_statement-ok s w first in
    let (c, r) = for_each-ok ss (run_statement s w).1 b.second in
    ((e, subst (AllClear ss) q c), ap (λ (v : World). v.db) b.world ∙ r ∙ ap (apply_all ss) q)

pub for_each-calm :
    (ss : List Statement) (w : World)
    → AllClear ss w.db
    → for_each ss run_statement (record w { outcomes = [] })
      ≡ (ok tt, record w { outcomes = []; db = apply_all ss w.db })
unfolding for_each pure run_statement ◌>>=◌ remote query on_option modify_db
for_each-calm [] w c = refl
for_each-calm (s ∷ ss) w (c, cs) = rw c (for_each-calm ss (record w { db = s.change w.db }) cs)

-- A merge that finds its source, runs its statements from `d` and ends in `e`.
pub record Merged (src dst : ℕ) (d e : Db) : Type 0 where
  pub source : User
  pub found : find src d.users ≡ some source
  pub clear : AllClear (merge_statements src dst source) d
  pub result : e ≡ apply_all (merge_statements src dst source) d

abbrev pub body : (src dst : ℕ) → Exec (Unit {0})
body src dst = do
  row ← query (λ d. find src d.users)
  on_option row (raise Error.user_not_found)
      λ u. for_each (merge_statements src dst u) run_statement

body-ok :
    (src dst : ℕ) (v : World)
    → (body src dst v).0 ≡ ok tt
    → Merged src dst v.db (body src dst v).1.db
unfolding ◌>>=◌ query remote on_option raise
body-ok src dst v h = elim (Result_cases (remote v).0) [
  | inl (n, r) ↦ elim (Option-cases (find src v.db.users)) [
    | inl e ↦ absurd (ground (arith, h, r, e))
    | inr (u, e) ↦
        let after : World = (remote v).1 in
        let run = for_each-ok (merge_statements src dst u) after (ground (arith, h, r, e)) in
        record { source = u; found = e; clear = run.0; result = ground (arith, run.1, r, e) }
  ]
  | inr (e, r) ↦ absurd (ground (arith, h, r))
]

pub merged :
    (src dst : ℕ) (w : World)
    → (merge_users src dst w).0 ≡ ok tt
    → Merged src dst w.db (merge_users src dst w).1.db
unfolding merge_users
merged src dst w h =
    let t = transaction-ok (body src dst) w tt h in
    let m = body-ok src dst t.start t.body in
    rw t.world (subst (λ d. Merged src dst d (body src dst t.start).1.db) t.same m)
