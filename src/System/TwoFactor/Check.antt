-- ===== src/System/TwoFactor/Check.antt =====
-- TFACheck in internal/handler/http/handlers.go gives tokens for an approved challenge only.
use testmellow.Prelude.{
  ℕ, ◌≡◌, refl, ap, ◌∙◌, sym, inl, inr, Bool, true, false, Option, none, some, List, ◌∷◌, arith,
  Option-cases, Bool-cases, ◌==◌, if◌then◌else◌, [], ◌||◌, ltb,
}
use testmellow.World.Exec.{World, ok, ◌>>=◌, remote, on_option, raise, pure, fail_if, Exec, Error}
use testmellow.Redis.Limits.{script}
use testmellow.Redis.Challenge.{
  Challenge, get_challenge, split_tfa_value, tfa_approved, tfa_denied, text_eq,
}
use testmellow.Redis.Challenge.Commands.{get_2fa_challenge}
use testmellow.Http.Auth.{UuidFormat, Tokens, TfaAnswer, approve, named, tfa_check}
use testmellow.Bot.Owner.{text_eq→eq}
use testmellow.World.Bind.{bind_ok}
use testmellow.Jwt.{TokenLibrary}

approve-user :
    {Token : Type 0} (lib : TokenLibrary Token) (uuid : UuidFormat) (text : List ℕ) (w : World)
    (t : Tokens Token) (uid : ℕ) (admin : Bool)
    → (approve lib uuid text w).0 ≡ ok (TfaAnswer.approved t uid admin)
    → uuid.parse text ≡ some uid
unfolding approve ◌>>=◌ on_option raise pure
approve-user lib uuid text w t uid admin h = elim (Option-cases (uuid.parse text)) [
  | inl n ↦ absurd (ground (arith, h, n))
  | inr (id, e) ↦ ground (arith, h, e)
]

-- The challenge that lets a login in.
pub record Open (uuid : UuidFormat) (id uid : ℕ) (w : World) : Type 0 where
  pub text : List ℕ
  pub stored : Challenge
  pub there : w.cache.challenges id ≡ some stored
  pub reads : split_tfa_value stored.value ≡ (text, tfa_approved)
  pub parsed : uuid.parse text ≡ some uid

-- What `tfa_check` does with the challenge that it read.
abbrev decide :
    {Token : Type 0} (lib : TokenLibrary Token) (uuid : UuidFormat)
    → Option (List ℕ × List ℕ)
    → Exec (TfaAnswer Token)
decide lib uuid found =
    on_option (named lib uuid found) (raise Error.challenge_expired) λ (user_id, status).
      if text_eq status tfa_approved
      then approve lib uuid user_id
      else pure (if text_eq status tfa_denied then TfaAnswer.denied else TfaAnswer.pending)

decide-approved :
    {Token : Type 0} (lib : TokenLibrary Token) (uuid : UuidFormat)
    (found : Option (List ℕ × List ℕ)) (v : World) (t : Tokens Token) (uid : ℕ) (admin : Bool)
    → (decide lib uuid found v).0 ≡ ok (TfaAnswer.approved t uid admin)
    → (text : List ℕ) × (found ≡ some (text, tfa_approved)) × (uuid.parse text ≡ some uid)
unfolding on_option raise pure
decide-approved lib uuid none v t uid admin h = absurd (ground (arith, h))
decide-approved lib uuid (some ([], status)) v t uid admin h = absurd (ground (arith, h))
decide-approved lib uuid (some (x ∷ xs, status)) v t uid admin h =
    elim (Bool-cases (text_eq status tfa_approved)) [
      | inl y ↦ (
        x ∷ xs,
        ap (λ s. some (x ∷ xs, s)) (text_eq→eq status tfa_approved y),
        approve-user lib uuid (x ∷ xs) v t uid admin (ground (arith, h, y)),
      )
      | inr n ↦ absurd (ground (arith, h, n))
    ]

read-challenge :
    (id : ℕ) (v : World) (found : Option (List ℕ × List ℕ))
    → (get_2fa_challenge id v).0 ≡ ok found
    → found ≡ get_challenge v.clock (v.cache.challenges id)
unfolding get_2fa_challenge script ◌>>=◌ remote
read-challenge id v found h = ground (arith, h)

fail_if-world : (b : Bool) (e : Error) (w : World) → (fail_if b e w).1 ≡ w
unfolding fail_if raise pure
fail_if-world true e w = refl
fail_if-world false e w = refl

stored-challenge :
    (now : ℕ) (o : Option Challenge) (p : List ℕ × List ℕ)
    → get_challenge now o ≡ some p
    → (c : Challenge) × (o ≡ some c) × (split_tfa_value c.value ≡ p)
unfolding get_challenge
stored-challenge now none p h = absurd (ground (arith, h))
stored-challenge now (some c) p h = (c, refl, ground (arith, h))

pub tfa_check-Open :
    {Token : Type 0} (lib : TokenLibrary Token) (uuid : UuidFormat) (id length : ℕ) (w : World)
    (t : Tokens Token) (uid : ℕ) (admin : Bool)
    → (tfa_check lib uuid id length w).0 ≡ ok (TfaAnswer.approved t uid admin)
    → Open uuid id uid w
unfolding tfa_check
tfa_check-Open lib uuid id length w t uid admin h =
    let bad = (id == 0) || ltb 64 length in
    let b =
      bind_ok (fail_if bad Error.invalid_request) (λ _. get_2fa_challenge id >>= decide lib uuid) w
        _ h in
    let v = (fail_if bad Error.invalid_request w).1 in
    let d = bind_ok (get_2fa_challenge id) (decide lib uuid) v _ b.second in
    let (text, f, p) = decide-approved lib uuid d.value _ t uid admin d.second in
    let same = fail_if-world bad Error.invalid_request w in
    let (c, q, r) =
      stored-challenge v.clock (v.cache.challenges id) (text, tfa_approved)
        (sym (read-challenge id v d.value d.first) ∙ f) in
    record {
      text = text;
      stored = c;
      there = ap (λ (x : World). x.cache.challenges id) (sym same) ∙ q;
      reads = r;
      parsed = p;
    }
