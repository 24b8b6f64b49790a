-- ===== src/Http/Auth.antt =====
-- internal/handler/http/handlers.go, AuthHandler: sessions. The cookies are the tokens; a cookie
-- that is absent or empty is `none`. Every token that the code signs carries its time of issue.
use testmellow.Prelude.{
  ℕ, Bool, Option, none, some, List, [], ◌∷◌, ◌==◌, ◌&&◌, ◌||◌, not, ltb, if◌then◌else◌,
}
use testmellow.World.Rows.{User, Job}
use testmellow.World.Exec.{
  Error, Result, ok, Exec, pure, raise, attempt, ◌>>=◌, ◌>>◌, on_option, on_result, fail_if,
  enqueue, ignore, now, remote,
}
use testmellow.Jwt.{
  TokenLibrary, TokenClaims, generate, generate_refresh, parse_refresh, refresh_ttl,
}
use testmellow.Redis.Sessions.{
  register_refresh_token, validate_and_revoke, revoke, revoke_all, set_password_version,
  check_password_version, banned_check,
}
use testmellow.Redis.Challenge.{text_eq, tfa_approved, tfa_denied}
use testmellow.Redis.Challenge.Commands.{create_2fa_challenge, get_2fa_challenge}
use testmellow.Repo.Users.{get_by_id}
use testmellow.Auth.Login.{LoginInput, login}
use testmellow.Auth.Register.{RegisterInput, register}

-- The text of a UUID, and `uuid.Parse`.
pub record UuidFormat : Type 0 where
  pub text : ℕ → List ℕ
  pub parse : List ℕ → Option ℕ

-- The cookies of a new session.
pub record Tokens (Token : Type 0) : Type 0 where
  pub access : Token
  pub refresh : Token

pub data LoginAnswer (Token : Type 0) : Type 0 where
  signed_in : Tokens Token → (user_id : ℕ) (is_admin : Bool) → LoginAnswer Token
  tfa_required : (challenge_id : ℕ) → LoginAnswer Token

pub data TfaAnswer (Token : Type 0) : Type 0 where
  approved : Tokens Token → (user_id : ℕ) (is_admin : Bool) → TfaAnswer Token
  denied pending : TfaAnswer Token

-- `user.TFAEnabled && user.TelegramID != nil && *user.TelegramID != 0`
abbrev pub tfa_telegram : User → Option ℕ
tfa_telegram u = elim u.telegram_id [
  | none ↦ none
  | some id ↦ if u.tfa_enabled && not (id == 0) then some id else none
]

abbrev pub admin_or : Bool → Result (Option User) → Bool
admin_or claim (ok (some u)) = u.is_admin
admin_or claim r = claim

-- `Refresh` for a token whose id is not in Redis: it expired, or it was used before.
unfoldable pub refuse_replay : TokenClaims → Error → Exec ℕ
refuse_replay claims Error.refresh_revoked = do
  ignore (revoke_all claims.user_id)
  t ← now
  ignore (set_password_version claims.user_id t)
  raise Error.session_compromised
refuse_replay claims e = raise Error.session_expired

-- The user that Redis has for the token must be that of its claims, and not banned.
unfoldable pub accept_stored : TokenClaims → Result ℕ → Exec (Unit {0})
unfolding refuse_replay
accept_stored claims stored = do
  user_id ← on_result stored (refuse_replay claims) pure
  if not (user_id == 0) && not (user_id == claims.user_id)
      then (do ignore (revoke_all claims.user_id); raise Error.session_expired)
      else banned_check claims.user_id

-- The part of `Refresh` up to the new tokens.
unfoldable pub redeem_refresh : TokenClaims → Exec (Unit {0})
unfolding accept_stored
redeem_refresh claims = do
  check_password_version claims.user_id claims.issued_at
  stored ← attempt (validate_and_revoke claims.id)
  accept_stored claims stored

module _ {Token : Type 0} (lib : TokenLibrary Token) where
  -- `Generate`, `GenerateRefresh`, `RegisterRefreshToken`, whose error is only logged.
  unfoldable pub issue_tokens : ℕ → Bool → Exec (Tokens Token)
  unfolding generate generate_refresh
  issue_tokens user_id is_admin = do
    access ← generate lib user_id is_admin
    (refresh, jti) ← generate_refresh lib user_id is_admin
    ignore (register_refresh_token jti user_id refresh_ttl)
    pure (record { access = access; refresh = refresh })

  -- `Refresh` after the check of the token: the role comes from the database, from the token only
  -- where the read fails.
  unfoldable pub exchange : TokenClaims → Exec (Tokens Token)
  unfolding redeem_refresh issue_tokens
  exchange claims = do
    redeem_refresh claims
    row ← attempt (get_by_id claims.user_id)
    issue_tokens claims.user_id (admin_or claims.is_admin row)

  -- `Refresh`
  unfoldable pub refresh : Option Token → Exec (Tokens Token)
  unfolding exchange
  refresh cookie = on_option cookie (raise Error.session_expired) λ token. do
    t ← now
    on_option (parse_refresh lib t token) (raise Error.session_expired) exchange

  -- `Logout`: the answer is the same whatever the cookie is.
  unfoldable pub logout : Option Token → Exec (Unit {0})
  logout cookie = on_option cookie (pure tt) λ token. do
    t ← now
    on_option (parse_refresh lib t token) (pure tt) λ claims. ignore (revoke claims.id)

  module _ (uuid : UuidFormat) (compare : ℕ → ℕ → Bool) where
    -- `Login`: tokens, or a challenge for the user's Telegram account. The id of the challenge is
    -- random (`generateChallengeID`).
    unfoldable pub login_handler : LoginInput → Exec (LoginAnswer Token)
    unfolding issue_tokens
    login_handler input = do
      (id, u) ← login compare input
      on_option (tfa_telegram u)
          (do
            tokens ← issue_tokens id u.is_admin
            pure (LoginAnswer.signed_in tokens id u.is_admin))
          (λ telegram_id. do
            challenge_id ← remote
            create_2fa_challenge challenge_id (uuid.text id)
            ignore (enqueue (Job.tfa_challenge telegram_id challenge_id))
            pure (LoginAnswer.tfa_required challenge_id))

  module _ (uuid : UuidFormat) where
    unfoldable pub approve : List ℕ → Exec (TfaAnswer Token)
    approve user_id = on_option (uuid.parse user_id) (raise Error.server_error) λ id. do
      row ← get_by_id id
      on_option row (raise Error.server_error) λ u. do
        tokens ← issue_tokens id u.is_admin
        pure (TfaAnswer.approved tokens id u.is_admin)

    -- `if userID == ""`
    abbrev pub named : Option (List ℕ × List ℕ) → Option (List ℕ × List ℕ)
    named none = none
    named (some ([], status)) = none
    named (some (x ∷ xs, status)) = some (x ∷ xs, status)

    -- `TFACheck`: `length` is that of the challenge's id.
    unfoldable pub tfa_check : (challenge_id length : ℕ) → Exec (TfaAnswer Token)
    unfolding approve
    tfa_check challenge_id length = do
      fail_if ((challenge_id == 0) || ltb 64 length) Error.invalid_request
      found ← get_2fa_challenge challenge_id
      on_option (named found) (raise Error.challenge_expired) λ (user_id, status).
          if text_eq status tfa_approved
          then approve user_id
          else pure (if text_eq status tfa_denied then TfaAnswer.denied else TfaAnswer.pending)

  module _ (hash : ℕ → Option ℕ) (admin_token : ℕ) where
    -- `Register`: `name_ok` is `usernameRe`.
    unfoldable pub register_handler : Bool → RegisterInput → Exec (Tokens Token × ℕ × User)
    unfolding issue_tokens
    register_handler name_ok input = do
      fail_if (not name_ok) Error.invalid_request
      (id, u) ← register hash admin_token input
      tokens ← issue_tokens id u.is_admin
      pure (tokens, id, u)
