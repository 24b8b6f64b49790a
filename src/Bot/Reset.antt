-- ===== src/Bot/Reset.antt =====
-- The bot resets a password only where that opens nothing that a second factor guards.
use testmellow.Prelude.{
  ℕ, ◌≡◌, ◌≢◌, refl, false, Option, none, some, arith, Option-cases, Bool-cases, inl, inr,
  rows_where, subst, ap, sym, ◌∙◌, update, Table,
}
use testmellow.World.Rows.{User, Db, Activity, ActivityEvent}
use testmellow.World.Exec.{
  Error, World, ok, ◌>>=◌, on_option, fail_if, remote, query, raise, pure, Exec, ◌>>◌, now, ignore,
  Result_cases, execute, modify_db,
}
use testmellow.Redis.Limits.{check_rate_limit}
use testmellow.Redis.Codes.{reset_limit_key}
use testmellow.Repo.Accounts.{equals}
use testmellow.Repo.Rewards.{first}
use testmellow.Repo.Profiles.{get_by_telegram_id, create_activity, set_password}
use testmellow.Bot.{reset_password, handle_reset_password, logged}
use testmellow.World.Bind.{bind_ok}
use testmellow.Redis.Limits.Reads.{check_rate_limit-Keeps}
use testmellow.World.Keeps.{Keeps, keeps_rules, Keeps-execute, Keeps-query}
use testmellow.World.Gives.{Gives, Gives-bind, Gives-pure}
use testmellow.Redis.Reads.{session_rules}
use testmellow.Redis.Sessions.{set_password_version, revoke_all}

-- What a reset has done: `id` is the account of the sender, which the bot may reset, and the row of
-- that account, and of no other, has the hash of the new password.
pub record HasReset (hash : ℕ → Option ℕ) (tg_id password : ℕ) (w w' : World) : Type 0 where
  pub id : ℕ
  pub user : User
  pub theirs : first (rows_where (λ u. equals u.telegram_id tg_id) w.db.users) ≡ some (id, user)
  pub not_banned : user.is_banned ≡ false
  pub no_factor : user.tfa_enabled ≡ false
  pub password_hash : ℕ
  pub hashed : hash password ≡ some password_hash
  pub stored :
      w'.db.users ≡ update id (λ u. record u { password_hash = some password_hash }) w.db.users

module _ (id password : ℕ) where
  -- After the hash is stored.
  abbrev finish : Exec ℕ
  finish = do
    t ← now
    ignore (set_password_version id t)
    ignore (revoke_all id)
    ignore (create_activity (logged id ActivityEvent.password_reset))
    remote
    pure password

  finish-Gives : Gives (λ p. p ≡ password) finish
  finish-Gives = Gives-bind _ _ (λ _. Gives-bind _ _ (λ _.
      Gives-bind _ _ (λ _. Gives-bind _ _ (λ _. Gives-bind _ _ (λ _. Gives-pure password refl)))))

  create_activity-users :
      {users : Table User} (a : Activity) → Keeps (λ d. d.users ≡ users) (create_activity a)
  unfolding create_activity
  create_activity-users a = Keeps-execute _ (λ d h. h)

  finish-users : (users : Table User) → Keeps (λ d. d.users ≡ users) finish
  finish-users users = search (keeps_rules, session_rules, create_activity-users) depth 20

set_password-users :
    (id h : ℕ) (v : World) (r : Unit {0})
    → (set_password id h v).0 ≡ ok r
    → (set_password id h v).1.db.users
      ≡ update id (λ u. record u { password_hash = some h }) v.db.users
unfolding set_password execute modify_db ◌>>=◌ remote
set_password-users id h v r e = elim (Result_cases (remote v).0) [
  | inl (n, q) ↦ ground (arith, q)
  | inr (x, q) ↦ absurd (ground (arith, e, q))
]

-- The end of `reset_password`.
abbrev store : (id password : ℕ) → Option ℕ → Exec ℕ
store id password hashed =
    on_option hashed (raise Error.server_error) λ h. do set_password id h; finish id password

-- What `reset_password` has done when it gives `pw`.
abbrev Stored : (hash : ℕ → Option ℕ) → (id pw : ℕ) → World → World → Type 0
Stored hash id pw v v' =
    (h : ℕ) × (hash pw ≡ some h)
    × (v'.db.users ≡ update id (λ u. record u { password_hash = some h }) v.db.users)

store-Stored :
    (hash : ℕ → Option ℕ) (id pw p : ℕ) (o : Option ℕ) (v : World)
    → hash p ≡ o
    → (store id p o v).0 ≡ ok pw
    → Stored hash id pw v (store id p o v).1
unfolding on_option raise
store-Stored hash id pw p none v e k = absurd (ground (arith, k))
store-Stored hash id pw p (some h) v e k =
    let b = bind_ok (set_password id h) (λ _. finish id p) v pw k in
    let v' = (set_password id h v).1 in
    (
      h,
      ap hash ((finish-Gives id p).at v' pw b.second) ∙ e,
      ap (λ (x : World). x.db.users) b.world
          ∙ (finish-users id p v'.db.users).at v' refl
          ∙ set_password-users id h v b.value b.first,
    )

module _ (hash : ℕ → Option ℕ) (tg_id : ℕ) where
  -- After the row is read.
  abbrev guarded : Option (ℕ × User) → Exec ℕ
  guarded row = on_option row (raise Error.no_telegram) λ (id, u). do
    fail_if u.is_banned Error.banned
    fail_if u.tfa_enabled Error.tfa_blocks_reset
    reset_password hash id

  guards-pass :
      (id : ℕ) (u : User) (v : World) (pw : ℕ)
      → (guarded (some (id, u)) v).0 ≡ ok pw
      → (u.is_banned ≡ false) × (u.tfa_enabled ≡ false)
  unfolding on_option fail_if raise pure ◌>>=◌
  guards-pass id u v pw h = elim (Bool-cases u.is_banned) [
    | inl b ↦ absurd (ground (arith, h, b))
    | inr b ↦ elim (Bool-cases u.tfa_enabled) [
      | inl t ↦ absurd (ground (arith, h, b, t))
      | inr t ↦ (b, t)
    ]
  ]

  guards-continue :
      (id : ℕ) (u : User) (v : World)
      → u.is_banned ≡ false
      → u.tfa_enabled ≡ false
      → guarded (some (id, u)) v ≡ reset_password hash id v
  unfolding on_option fail_if raise pure ◌>>=◌
  guards-continue id u v b t = rw (b, t) refl

  no_row : (v : World) (pw : ℕ) → (guarded none v).0 ≢ ok pw
  unfolding on_option raise
  no_row v pw h = ground (arith, h)

  row-read :
      (v : World) (row : Option (ℕ × User))
      → (get_by_telegram_id tg_id v).0 ≡ ok row
      → row ≡ first (rows_where (λ u. equals u.telegram_id tg_id) v.db.users)
  unfolding get_by_telegram_id query ◌>>=◌ remote
  row-read v row h = ground (arith, h)

  same_db : (w : World) → (check_rate_limit (reset_limit_key tg_id) 3 3600 w).1.db ≡ w.db
  same_db w = (check_rate_limit-Keeps {Q = λ d. d ≡ w.db} (reset_limit_key tg_id) 3 3600).at w refl

  read_db :
      (w : World)
      → (get_by_telegram_id tg_id (check_rate_limit (reset_limit_key tg_id) 3 3600 w).1).1.db ≡ w.db
  unfolding get_by_telegram_id
  read_db w = (Keeps-query {Q = λ d. d ≡ w.db} _).at _ (same_db w)

  reset_password-Stored :
      (id : ℕ) (v : World) (pw : ℕ)
      → (reset_password hash id v).0 ≡ ok pw
      → Stored hash id pw v (reset_password hash id v).1
  unfolding reset_password remote
  reset_password-Stored id v pw h =
      let b = bind_ok remote (λ p. store id p (hash p)) v pw h in
      let (k, e, u) = store-Stored hash id pw b.value (hash b.value) (remote v).1 refl b.second in
      (k, e, ap (λ (x : World). x.db.users) b.world ∙ u)

  -- When the command /resetpassword gives a new password, the row whose Telegram account is that of
  -- the sender is of a user who is not banned and has no two-factor login, and of all rows of the
  -- users just the password hash of this one has changed, to the hash of the new password: whatever
  -- fails, and whatever else the world is.
  pub handle_reset_password-guard :
      (w : World) (pw : ℕ)
      → (handle_reset_password hash tg_id w).0 ≡ ok pw
      → HasReset hash tg_id pw w (handle_reset_password hash tg_id w).1
  unfolding handle_reset_password
  handle_reset_password-guard w pw h =
      let b =
        bind_ok (check_rate_limit (reset_limit_key tg_id) 3 3600)
          (λ _. get_by_telegram_id tg_id >>= guarded) w pw h in
      let v = (check_rate_limit (reset_limit_key tg_id) 3 3600 w).1 in
      let d = bind_ok (get_by_telegram_id tg_id) guarded v pw b.second in
      let v' = (get_by_telegram_id tg_id v).1 in
      let r = row-read v d.value d.first in
      let world = b.world ∙ d.world in
      elim (Option-cases d.value) [
        | inl n ↦ absurd (no_row v' pw (subst (λ o. (guarded o v').0 ≡ ok pw) n d.second))
        | inr ((id, u), e) ↦
            let ends = subst (λ o. (guarded o v').0 ≡ ok pw) e d.second in
            let (x, y) = guards-pass id u v' pw ends in
            let same = guards-continue id u v' x y in
            let (k, hashed, stored) =
              reset_password-Stored id v' pw (subst (λ z. z.0 ≡ ok pw) same ends) in
            record {
              id = id;
              user = u;
              theirs =
                  sym (
                    ap (λ (x : Db). first (rows_where (λ u. equals u.telegram_id tg_id) x.users))
                      (same_db w))
                  ∙ sym r
                  ∙ e;
              not_banned = x;
              no_factor = y;
              password_hash = k;
              hashed = hashed;
              stored =
                  ap (λ (x : World). x.db.users) world
                  ∙ ap (λ o. (guarded o v').1.db.users) e
                  ∙ ap (λ z. z.1.db.users) same
                  ∙ stored
                  ∙ ap (λ (x : Db). update id (λ u. record u { password_hash = some k }) x.users)
                      (read_db w);
            }
      ]
