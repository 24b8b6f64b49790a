-- ===== src/Jwt.antt =====
-- pkg/jwt/jwt.go: the claims of access and refresh tokens. Signing and the check of a token are the
-- JWT library's. The texts of the issuer, the audiences and the subject are numbers.
pub mod Separation
use testmellow.Prelude.{ℕ, ◌+◌, ◌*◌, ◌≡◌, ◌<◌, Bool, Option, none, some, ◌==◌, not, if◌then◌else◌}
use testmellow.World.Exec.{Error, Exec, pure, raise, ◌>>=◌, on_option, now, new_id}

-- `Claims` with the registered claims that the code sets.
pub record TokenClaims : Type 0 where
  pub user_id : ℕ
  pub is_admin : Bool
  pub issuer : ℕ
  pub audience : ℕ
  pub subject : ℕ
  pub expires_at : ℕ
  pub issued_at : ℕ
  pub id : ℕ

abbrev pub jwt_issuer : ℕ
jwt_issuer = 1

abbrev pub audience_access : ℕ
audience_access = 1

abbrev pub audience_refresh : ℕ
audience_refresh = 2

abbrev pub no_subject : ℕ
no_subject = 0

abbrev pub subject_refresh : ℕ
subject_refresh = 1

-- golang-jwt with the secret of the manager. `sign` is `SignedString`, and `parse` is
-- `ParseWithClaims` at a time, with the issuer and the audience that it must find.
pub record TokenLibrary (Token : Type 0) : Type 0 where
  pub sign : TokenClaims → Option Token
  pub parse : (now issuer audience : ℕ) → Token → Option TokenClaims
  pub access_ttl : ℕ

-- What golang-jwt documents: the claims of a signed token are those that were signed, and a token
-- is accepted before it expires only, with the issuer and the audience that were asked for.
pub record IsFaithful {Token : Type 0} (lib : TokenLibrary Token) : Type 0 where
  pub same_claims :
      (c d : TokenClaims) (token : Token) (now issuer audience : ℕ)
      → lib.sign c ≡ some token
      → lib.parse now issuer audience token ≡ some d
      → d ≡ c
  pub checked :
      (c : TokenClaims) (token : Token) (now issuer audience : ℕ)
      → lib.parse now issuer audience token ≡ some c
      → (c.issuer ≡ issuer) × (c.audience ≡ audience) × (now < c.expires_at)

-- 30 days.
abbrev pub refresh_ttl : ℕ
refresh_ttl = 30 * 86400

module _ {Token : Type 0} (lib : TokenLibrary Token) where
  abbrev pub access_claims : ℕ → Bool → (now id : ℕ) → TokenClaims
  access_claims user_id is_admin now id = record {
    user_id = user_id;
    is_admin = is_admin;
    issuer = jwt_issuer;
    audience = audience_access;
    subject = no_subject;
    expires_at = now + lib.access_ttl;
    issued_at = now;
    id = id;
  }

  -- `Generate`
  unfoldable pub generate : ℕ → Bool → Exec Token
  generate user_id is_admin = do
    id ← new_id
    t ← now
    on_option (lib.sign (access_claims user_id is_admin t id)) (raise Error.server_error) pure

abbrev pub refresh_claims : ℕ → Bool → (now id : ℕ) → TokenClaims
refresh_claims user_id is_admin now id = record {
  user_id = user_id;
  is_admin = is_admin;
  issuer = jwt_issuer;
  audience = audience_refresh;
  subject = subject_refresh;
  expires_at = now + refresh_ttl;
  issued_at = now;
  id = id;
}

module _ {Token : Type 0} (lib : TokenLibrary Token) where
  -- `GenerateRefresh`: the token and its id.
  unfoldable pub generate_refresh : ℕ → Bool → Exec (Token × ℕ)
  generate_refresh user_id is_admin = do
    id ← new_id
    t ← now
    on_option (lib.sign (refresh_claims user_id is_admin t id)) (raise Error.server_error)
        (λ token. pure (token, id))

  -- `Parse` and `ParseRefresh` at a time.
  unfoldable pub parse_access : (now : ℕ) → Token → Option TokenClaims
  parse_access now token = lib.parse now jwt_issuer audience_access token

  abbrev with_subject : Option TokenClaims → Option TokenClaims
  with_subject none = none
  with_subject (some c) = if c.subject == subject_refresh then some c else none

  unfoldable pub parse_refresh : (now : ℕ) → Token → Option TokenClaims
  parse_refresh now token = with_subject (lib.parse now jwt_issuer audience_refresh token)
