-- ===== src/Bot/Owner.antt =====
-- A two-factor challenge is settled by its owner.
use testmellow.Prelude.{
  ℕ, ◌≡◌, refl, ◌⊎◌, inl, inr, Bool, true, some, List, [], ◌∷◌, arith, Option-cases, find,
  if◌then◌else◌, ap, ◌∙◌,
}
use testmellow.World.Rows.{User}
use testmellow.World.Exec.{
  World, Result_cases, ok, ◌>>=◌, remote, query, on_option, fail_if, raise, pure, Result,
}
use testmellow.Redis.Limits.{script}
use testmellow.Redis.Challenge.{
  get_challenge, text_eq, tfa_pending, tfa_approved, tfa_denied, resolve_challenge,
}
use testmellow.Redis.Challenge.Commands.{get_2fa_challenge, resolve_2fa_challenge, set_challenge}
use testmellow.Repo.Users.{get_by_id}
use testmellow.Http.Auth.{UuidFormat}
use testmellow.Bot.{check_callback, handle_tfa_callback}
use testmellow.World.Bind.{bind-continues}

-- The challenge waits for an answer, and the sender is the Telegram account of its user.
pub record IsOwner (uuid : UuidFormat) (tg_id challenge_id : ℕ) (w : World) : Type 0 where
  pub user_id : List ℕ
  pub uid : ℕ
  pub user : User
  pub pending :
      get_challenge w.clock (w.cache.challenges challenge_id) ≡ some (user_id, tfa_pending)
  pub named : uuid.parse user_id ≡ some uid
  pub found : find uid w.db.users ≡ some user
  pub owner : user.telegram_id ≡ some tg_id

pub text_eq→eq : (a b : List ℕ) → text_eq a b ≡ true → a ≡ b
unfolding text_eq
text_eq→eq [] [] h = refl
text_eq→eq (x ∷ xs) (y ∷ ys) h = ground (arith, h, text_eq→eq xs ys)
text_eq→eq [] (y ∷ ys) h = ground (arith, h)
text_eq→eq (x ∷ xs) [] h = ground (arith, h)

resolved :
    (id : ℕ) (status : List ℕ) (v : World) (n : ℕ)
    → (remote v).0 ≡ ok n
    → (resolve_2fa_challenge id status v).1.cache
      ≡ set_challenge id (resolve_challenge v.clock status (v.cache.challenges id)) v.cache
unfolding resolve_2fa_challenge script remote
resolved id status v n r =
    ap (λ (x : Result (Unit {0}) × World). x.1.cache) (bind-continues remote _ v n r)

module _ (uuid : UuidFormat) (tg_id challenge_id : ℕ) (w : World) where
  check-cache : (check_callback uuid tg_id challenge_id w).1.cache ≡ w.cache
  unfolding check_callback get_2fa_challenge script ◌>>=◌ remote on_option fail_if raise get_by_id
      query pure
  check-cache = ground arith

  check-IsOwner :
      (check_callback uuid tg_id challenge_id w).0 ≡ ok tt → IsOwner uuid tg_id challenge_id w
  unfolding check_callback get_2fa_challenge script ◌>>=◌ remote on_option fail_if raise get_by_id
      query pure
  check-IsOwner h = elim (Option-cases (get_challenge w.clock (w.cache.challenges challenge_id))) [
    | inl g ↦ absurd (ground (arith, h, g))
    | inr ((user_id, status), g) ↦ elim (Option-cases (uuid.parse user_id)) [
      | inl p ↦ absurd (ground (arith, h, g, p))
      | inr (uid, p) ↦ elim (Option-cases (find uid w.db.users)) [
        | inl f ↦ absurd (ground (arith, h, g, p, f))
        | inr (u, f) ↦ elim (Option-cases u.telegram_id) [
          | inl t ↦ absurd (ground (arith, h, g, p, f, t))
          | inr (id, t) ↦ record {
            user_id = user_id;
            uid = uid;
            user = u;
            pending = ground (arith, h, g, text_eq→eq status tfa_pending);
            named = p;
            found = f;
            owner = ground (arith, h, g, p, f, t);
          }
        ]
      ]
    ]
  ]

  check-clock : (check_callback uuid tg_id challenge_id w).1.clock ≡ w.clock
  unfolding check_callback get_2fa_challenge script ◌>>=◌ remote on_option fail_if raise get_by_id
      query pure
  check-clock = ground arith

  abbrev pub answered : Bool → World
  answered approve = (handle_tfa_callback uuid tg_id challenge_id approve w).1

  -- The button of a message changes at most the challenge that it names, for its owner.
  pub answer-effect :
      (approve : Bool)
      → ((answered approve).cache ≡ w.cache)
        ⊎ (IsOwner uuid tg_id challenge_id w
            × ((answered approve).cache
                ≡ set_challenge challenge_id
                    (resolve_challenge w.clock
                      (if approve then tfa_approved else tfa_denied)
                      (w.cache.challenges challenge_id))
                    w.cache))
  unfolding handle_tfa_callback resolve_2fa_challenge script ◌>>=◌ remote
  answer-effect approve = elim (Result_cases (check_callback uuid tg_id challenge_id w).0) [
    | inr (e, c) ↦ inl (ground (arith, c, check-cache))
    | inl (u, c) ↦ elim (Result_cases (remote (check_callback uuid tg_id challenge_id w).1).0) [
      | inr (e, r) ↦ inl (ground (arith, c, r, check-cache))
      | inl (n, r) ↦ inr (
        check-IsOwner c,
        let status = if approve then tfa_approved else tfa_denied in
            let v = (check_callback uuid tg_id challenge_id w).1 in
            let after =
              bind-continues (check_callback uuid tg_id challenge_id)
                (λ _. resolve_2fa_challenge challenge_id status) w u c in
            ap (λ (r : Result (Unit {0}) × World). r.1.cache) after
            ∙ resolved challenge_id status v n r
            ∙ (rw (check-cache, check-clock) refl),
      )
    ]
  ]
