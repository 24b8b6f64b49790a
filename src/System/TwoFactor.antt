-- ===== src/System/TwoFactor.antt =====
-- Who can let a two-factor login in, over any history of the service.
pub mod Check
use testmellow.Prelude.{
  ℕ, ◌≡◌, refl, ap, ◌∙◌, sym, ◌⊎◌, inl, inr, Bool, true, false, Option, none, some, List, ◌++◌, ◌∷◌,
  arith, Option-cases, Bool-cases, ◌==◌, if◌then◌else◌, ◌≢◌, [], ◌||◌, ltb,
}
use testmellow.World.Exec.{
  World, Result_cases, ok, ◌>>=◌, remote, Result, on_option, raise, pure, fail_if, Exec, Error,
}
use testmellow.Redis.Store.{Cache}
use testmellow.Redis.Limits.{script}
use testmellow.Redis.Challenge.{
  Challenge, colon, get_challenge, create_challenge, resolve_challenge, split_tfa_value,
  tfa_pending, tfa_approved, tfa_denied, text_eq,
}
use testmellow.Redis.Challenge.Commands.{set_challenge, create_2fa_challenge, get_2fa_challenge}
use testmellow.Redis.Challenge.Split.{split_tfa_value-append, resolve_challenge-cases}
use testmellow.Http.Auth.{UuidFormat, Tokens, TfaAnswer, approve, named, tfa_check}
use testmellow.Bot.{handle_tfa_callback}
use testmellow.Bot.Owner.{IsOwner, answer-effect, text_eq→eq}
use testmellow.World.Bind.{bind-continues, bind-fails, bind_ok}
use testmellow.Jwt.{TokenLibrary}
use testmellow.System.TwoFactor.Check.{Open, tfa_check-Open}

-- What can happen to the challenges: the login handler makes one, somebody presses a button under a
-- message of the bot, and anything else, in which Redis may lose keys.
pub data Step (uuid : UuidFormat) : World → World → Type 0 where
  challenge :
      (id : ℕ) (user_id : List ℕ) (w : World) → Step uuid w (create_2fa_challenge id user_id w).1
  answer :
      (tg_id id : ℕ) (approve : Bool) (w : World)
      → Step uuid w (handle_tfa_callback uuid tg_id id approve w).1
  other :
      (w w' : World)
      → ((id : ℕ)
          → (w'.cache.challenges id ≡ w.cache.challenges id) ⊎ (w'.cache.challenges id ≡ none))
      → Step uuid w w'

pub data History (uuid : UuidFormat) (w : World) : World → Type 0 where
  start : History uuid w w
  then_ : {v u : World} → History uuid w v → Step uuid v u → History uuid w u

-- Somewhere in the history the owner of the challenge pressed "approve" while it was pending.
pub data WasApproved (uuid : UuidFormat) (w : World) (id : ℕ) (user_id : List ℕ)
    : (u : World) → History uuid w u → Type 0 where
  here :
      (tg_id : ℕ) (v : World) (h : History uuid w v) (o : IsOwner uuid tg_id id v)
      → o.user_id ≡ user_id
      → WasApproved uuid w id user_id _ (History.then_ h (Step.answer tg_id id true v))
  later :
      {v u : World} (h : History uuid w v) (s : Step uuid v u)
      → WasApproved uuid w id user_id v h
      → WasApproved uuid w id user_id u (History.then_ h s)

created-pending :
    (now : ℕ) (u text : List ℕ) (c : Challenge)
    → create_challenge now u ≡ some c
    → split_tfa_value c.value ≢ (text, tfa_approved)
unfolding create_challenge
created-pending now u text c h e = ground (arith, h, e, split_tfa_value-append u tfa_pending refl)

denied-not_approved :
    (u text : List ℕ) → split_tfa_value (u ++ (colon ∷ tfa_denied)) ≢ (text, tfa_approved)
denied-not_approved u text e = ground (arith, e, split_tfa_value-append u tfa_denied refl)

approved-user :
    (u text : List ℕ)
    → split_tfa_value (u ++ (colon ∷ tfa_approved)) ≡ (text, tfa_approved)
    → u ≡ text
approved-user u text e = ground (arith, e, split_tfa_value-append u tfa_approved refl)

created :
    (id : ℕ) (user_id : List ℕ) (v : World)
    → ((create_2fa_challenge id user_id v).1.cache ≡ v.cache)
      ⊎ ((create_2fa_challenge id user_id v).1.cache
          ≡ set_challenge id (create_challenge v.clock user_id) v.cache)
unfolding create_2fa_challenge script remote
created id user_id v = elim (Result_cases (remote v).0) [
  | inl (n, r) ↦
      inr (ap (λ (x : Result (Unit {0}) × World). x.1.cache) (bind-continues remote _ v n r))
  | inr (e, r) ↦ inl (ap (λ (x : Result (Unit {0}) × World). x.1.cache) (bind-fails remote _ v e r))
]

-- A key after a command on one key.
after_set :
    (id j : ℕ) (new : Option Challenge) (c : Challenge) (old cache : Cache)
    → cache ≡ set_challenge id new old
    → cache.challenges j ≡ some c
    → ((j ≡ id) × (new ≡ some c)) ⊎ (old.challenges j ≡ some c)
after_set id j new c old cache e f =
    let g : (set_challenge id new old).challenges j ≡ some c =
      ap (λ (k : Cache). k.challenges j) (sym e) ∙ f in
    elim (Bool-cases (j == id)) [
      | inl p ↦ inl (ground (arith, p), ground (arith, p, g))
      | inr p ↦ inr (ground (arith, p, g))
    ]

module _ (uuid : UuidFormat) (w : World) where
  -- Every challenge that reads as approved was approved.
  abbrev Explained : (u : World) → History uuid w u → Type 0
  Explained u h =
      (j : ℕ) (c : Challenge) (text : List ℕ)
      → u.cache.challenges j ≡ some c
      → split_tfa_value c.value ≡ (text, tfa_approved)
      → WasApproved uuid w j text u h

  -- The answer that settled the challenge.
  settled :
      (tg_id id : ℕ) (approve : Bool) (v : World) (h : History uuid w v)
      → Explained v h
      → (c : Challenge) (text : List ℕ) → IsOwner uuid tg_id id v
      → resolve_challenge v.clock
          (if approve then tfa_approved else tfa_denied)
          (v.cache.challenges id)
        ≡ some c
      → split_tfa_value c.value ≡ (text, tfa_approved)
      → WasApproved uuid w id text _ (History.then_ h (Step.answer tg_id id approve v))
  settled tg_id id true v h x c text o n a =
      elim (resolve_challenge-cases v.clock tfa_approved (v.cache.challenges id) c n) [
        | inl old ↦ WasApproved.later h _ (x id c text old a)
        | inr (u, status, g, val) ↦
            WasApproved.here tg_id v h o (
              ground (arith, o.pending, g, approved-user u text (ap split_tfa_value (sym val) ∙ a)))
      ]
  settled tg_id id false v h x c text o n a =
      elim (resolve_challenge-cases v.clock tfa_denied (v.cache.challenges id) c n) [
        | inl old ↦ WasApproved.later h _ (x id c text old a)
        | inr (u, status, g, val) ↦
            absurd (denied-not_approved u text (ap split_tfa_value (sym val) ∙ a))
      ]

  step-Explained :
      (v u : World) (h : History uuid w v) (s : Step uuid v u)
      → Explained v h
      → Explained u (History.then_ h s)
  unfolding create_2fa_challenge script ◌>>=◌ remote
  step-Explained _ _ h (Step.challenge id user_id v) x j c text f a = elim (created id user_id v) [
    | inl e ↦ WasApproved.later h _ (x j c text (ap (λ c. c.challenges j) (sym e) ∙ f) a)
    | inr e ↦ elim (after_set id j _ c v.cache _ e f) [
      | inl (p, n) ↦ absurd (created-pending v.clock user_id text c n a)
      | inr o ↦ WasApproved.later h _ (x j c text o a)
    ]
  ]
  step-Explained _ _ h (Step.answer tg_id id approve v) x j c text f a =
      elim (answer-effect uuid tg_id id v approve) [
        | inl e ↦ WasApproved.later h _ (x j c text (ap (λ c. c.challenges j) (sym e) ∙ f) a)
        | inr (o, e) ↦ elim (after_set id j _ c v.cache _ e f) [
          | inl (p, n) ↦ rw p (settled tg_id id approve v h x c text o n a)
          | inr o ↦ WasApproved.later h _ (x j c text o a)
        ]
      ]
  step-Explained _ _ h (Step.other v u same) x j c text f a = elim (same j) [
    | inl e ↦ WasApproved.later h _ (x j c text (sym e ∙ f) a)
    | inr e ↦ absurd (ground (arith, e, f))
  ]

  History-Explained :
      ((j : ℕ) → w.cache.challenges j ≡ none) → (u : World) (h : History uuid w u) → Explained u h
  History-Explained z _ History.start = λ j c text f a. absurd (ground (arith, z j, f))
  History-Explained z _ (History.then_ h s) = step-Explained _ _ h s (History-Explained z _ h)

-- A login with two factors is let in by the owner of the account only. Start from a Redis with no
-- challenge, and let the service run: challenges are made, anybody presses buttons of the bot, and
-- all else happens that does not write a challenge. If the check of a challenge then gives tokens for
-- a user, the challenge was approved while it was pending, by a message from the Telegram account
-- that this user's row had at that time.
pub tfa_check-owner :
    {Token : Type 0} (lib : TokenLibrary Token) (uuid : UuidFormat) (w u : World)
    (h : History uuid w u) (id length : ℕ) (t : Tokens Token) (uid : ℕ) (admin : Bool)
    → ((j : ℕ) → w.cache.challenges j ≡ none)
    → (tfa_check lib uuid id length u).0 ≡ ok (TfaAnswer.approved t uid admin)
    → (text : List ℕ) × (uuid.parse text ≡ some uid) × WasApproved uuid w id text u h
tfa_check-owner lib uuid w u h id length t uid admin z k =
    let o = tfa_check-Open lib uuid id length u t uid admin k in
    (o.text, o.parsed, History-Explained uuid w z u h id o.stored o.text o.there o.reads)
