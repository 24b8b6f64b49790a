-- ===== src/Auth/Device.antt =====
-- service.go, `Login`: who gets in, and the notice about a new device.
use testmellow.Prelude.{
  ℕ, ◌≡◌, ◌≢◌, Bool, true, false, some, arith, not, List, [], ◌∷◌, if◌then◌else◌, ◌&&◌, ◌==◌, refl,
  inl, inr, Bool-cases, exists,
}
use testmellow.World.Rows.{User, Job}
use testmellow.World.Exec.{
  ok, World, ◌>>=◌, query, attempt, remote, execute, modify_db, Outcome, on_option, when, ignore,
  enqueue, pure,
}
use testmellow.World.Gives.{
  Gives, gives_rules, Gives-bind, Gives-on_option, Gives-if, Gives-fail_if, Gives-pure,
}
use testmellow.Remnawave.{text_or_empty}
use testmellow.Repo.Accounts.{
  create_account_activity, has_seen_user_agent, update_last_known_ip, is_login_from,
}
use testmellow.Auth.Login.{
  LoginInput, login, is_new_device, reject, verify_constant_time, hash_of, is_new_ip, record_login,
  announce_login,
}
use testmellow.Redis.Limits.{script, reset_login_attempts}

abbrev LetIn : (ℕ → ℕ → Bool) → LoginInput → ℕ × User → Type 0
LetIn compare input (id, u) =
    (u.is_banned ≡ false)
    × (verify_constant_time compare (hash_of (some (id, u))) input.password ≡ true)

reject-Gives : {P : ℕ × User → Type 0} (i : LoginInput) → Gives P (reject i)
unfolding reject
reject-Gives i = search gives_rules

login-LetIn : (compare : ℕ → ℕ → Bool) (i : LoginInput) → Gives (LetIn compare i) (login compare i)
unfolding login
login-LetIn compare i = Gives-bind _ _ (λ _. Gives-bind _ _ (λ row.
    Gives-on_option row _ _ (reject-Gives i) (λ a e.
      Gives-if (not (verify_constant_time compare (hash_of row) i.password)) _ _
        (λ _. reject-Gives i)
        (λ v.
          Gives-fail_if (a.1.is_banned) _ _
            (λ n. Gives-bind _ _ (λ _. Gives-pure _ (n, ground (arith, e, v))))))))

-- Whoever Login lets in, in any world, is not banned, and has a stored hash, not the empty text, that
-- the given password matches.
pub login_sound :
    (compare : ℕ → ℕ → Bool) (i : LoginInput) (w : World) (id : ℕ) (u : User)
    → (login compare i w).0 ≡ ok (id, u)
    → (u.is_banned ≡ false)
      × (text_or_empty u.password_hash ≢ 0)
      × (compare (text_or_empty u.password_hash) i.password ≡ true)
unfolding verify_constant_time
login_sound compare i w id u h =
    let (n, v) = (login-LetIn compare i).at w (id, u) h in (n, ground arith, ground arith)

-- The queue after the notice about a new address.
abbrev pub told_ip : LoginInput → User → (telegram_id : ℕ) → List Job → List Job
told_ip i u t q = if is_new_ip i u then Job.notify_telegram t ∷ q else q

-- All calls answer.
abbrev pub answering : World → World
answering w = record w { outcomes = [] }

-- The third call fails.
abbrev pub unwritten : World → World
unwritten w = record w { outcomes = Outcome.done 0 ∷ Outcome.done 0 ∷ Outcome.io_error ∷ [] }

nonzero : (n : ℕ) → n ≢ 0 → (n == 0) ≡ false
nonzero n h = ground (arith, h)

same_login : (id a : ℕ) → ((id == id) && (a == a)) ≡ true
same_login id a = ground arith

module _ (i : LoginInput) (id : ℕ) (u : User) (w : World) (t : ℕ) where
  notices_when_written :
      u.telegram_id ≡ some t
      → t ≢ 0
      → i.user_agent ≢ 0
      → i.ip ≢ 0
      → (record_login i id u (answering w)).1.queue ≡ told_ip i u t w.queue
  unfolding record_login reset_login_attempts update_last_known_ip is_new_device
      create_account_activity has_seen_user_agent announce_login on_option when ignore script query
      execute modify_db enqueue ◌>>=◌ attempt remote pure
  notices_when_written h t0 a0 i0 =
      let a = nonzero i.ip i0 in
      let b = nonzero i.user_agent a0 in
      let c = nonzero t t0 in
      let s = same_login id i.user_agent in
      elim (Bool-cases (is_new_ip i u)) [
        | inl y ↦ rw (y, a, b, s, h, c) refl
        | inr n ↦ rw (n, a, b, s, h, c) refl
      ]

  notices_when_unwritten :
      u.telegram_id ≡ some t
      → t ≢ 0
      → i.user_agent ≢ 0
      → i.ip ≢ 0
      → (record_login i id u (unwritten w)).1.queue ≡ (
          if exists (is_login_from id i.user_agent) w.db.logins
          then told_ip i u t w.queue
          else Job.notify_telegram t ∷ told_ip i u t w.queue)
  unfolding record_login reset_login_attempts update_last_known_ip is_new_device
      create_account_activity has_seen_user_agent announce_login on_option when ignore script query
      execute modify_db enqueue ◌>>=◌ attempt remote pure
  notices_when_unwritten h t0 a0 i0 =
      let a = nonzero i.ip i0 in
      let b = nonzero i.user_agent a0 in
      let c = nonzero t t0 in
      let seen = Bool-cases (exists (is_login_from id i.user_agent) w.db.logins) in
      elim (Bool-cases (is_new_ip i u)) [
        | inl y ↦ elim seen [
          | inl s ↦ rw (y, a, b, s, h, c) refl
          | inr s ↦ rw (y, a, b, s, h, c) refl
        ]
        | inr n ↦ elim seen [
          | inl s ↦ rw (n, a, b, s, h, c) refl
          | inr s ↦ rw (n, a, b, s, h, c) refl
        ]
      ]

-- The notices of a login, for a user with a Telegram account, from a known address and with a user
-- agent. If every call answers, none about a new device is ever sent, even where no earlier login had
-- this user agent: the queue gets the notice about a new IP or nothing. If the counter is reset and
-- the address stored, but the row of this login is not written, the notice about a new device is
-- sent exactly if no earlier login of the user had this user agent.
pub record_login-notices :
    (i : LoginInput) (id : ℕ) (u : User) (w : World) (t : ℕ)
    → u.telegram_id ≡ some t
    → t ≢ 0
    → i.user_agent ≢ 0
    → i.ip ≢ 0
    → ((record_login i id u (answering w)).1.queue ≡ told_ip i u t w.queue)
      × ((record_login i id u (unwritten w)).1.queue ≡ (
          if exists (is_login_from id i.user_agent) w.db.logins
          then told_ip i u t w.queue
          else Job.notify_telegram t ∷ told_ip i u t w.queue))
record_login-notices i id u w t h t0 a0 i0 =
    (notices_when_written i id u w t h t0 a0 i0, notices_when_unwritten i id u w t h t0 a0 i0)
