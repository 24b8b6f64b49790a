-- ===== src/Gate.antt =====
-- internal/middleware/middleware.go: what a request must pass. A request that is let through goes on,
-- another is answered at once with an error.
pub mod Access
pub mod Limits
use testmellow.Prelude.{
  ℕ, Bool, true, false, ◌&&◌, ◌||◌, not, Option, none, some, List, [], ◌∷◌, ltb, ◌==◌, exists, find,
  if◌then◌else◌, length,
}
use testmellow.World.Rows.{User}
use testmellow.World.Exec.{
  Error, Result, ok, err, Exec, pure, raise, attempt, ◌>>=◌, ◌>>◌, on_option, on_result, fail_if,
  query,
}
use testmellow.Redis.Sessions.{check_password_version}

-- `Claims` of an access token.
pub record Claims : Type 0 where
  pub user_id : ℕ
  pub is_admin : Bool
  pub issued_at : Option ℕ

-- The token of the header, else that of the cookie; the texts are numbers, 0 is the empty one.
abbrev chosen_token : Option ℕ → Option ℕ → ℕ
chosen_token (some t) cookie = t
chosen_token none (some t) = t
chosen_token none none = 0

module _ (parse : ℕ → Option Claims) where
  -- `Auth`; `parse` verifies the signature, the issuer and the audience. `bearer` is what follows
  -- "Bearer " in the header, if the header starts so.
  unfoldable pub auth : (bearer cookie : Option ℕ) → Exec Claims
  auth bearer cookie =
      if chosen_token bearer cookie == 0
      then raise Error.forbidden
      else on_option (parse (chosen_token bearer cookie)) (raise Error.forbidden) λ claims. do
        on_option claims.issued_at (pure tt) (check_password_version claims.user_id)
        pure claims

abbrev admin_row : Option User → Option Bool
admin_row none = none
admin_row (some u) = some u.is_admin

-- `IsAdmin` of user_repo.go: no row is an error.
unfoldable pub is_admin : ℕ → Exec Bool
is_admin id = do
  row ← query (λ d. find id d.users)
  on_option (admin_row row) (raise Error.db_error) pure

-- `AdminOnly`: the claim of the token alone.
unfoldable pub admin_only : Claims → Exec (Unit {0})
admin_only claims = fail_if (not claims.is_admin) Error.forbidden

-- `AdminDBCheck`: the claim, then the database.
unfoldable pub admin_db_check : Claims → Exec (Unit {0})
unfolding is_admin
admin_db_check claims = do
  fail_if (not claims.is_admin) Error.forbidden
  fail_if (claims.user_id == 0) Error.forbidden
  row ← attempt (is_admin claims.user_id)
  on_result row (λ _. raise Error.forbidden) λ admin. fail_if (not admin) Error.forbidden

-- The headers of `CORS` for a request with the origin `origin`: the origin that is allowed (`any`
-- for "*"), and whether credentials are.
pub data AllowOrigin : Type 0 where
  nobody any : AllowOrigin
  only : ℕ → AllowOrigin

pub record CorsAnswer : Type 0 where
  pub allow_origin : AllowOrigin
  pub credentials : Bool
  -- Status of the answer to `OPTIONS`; other requests go on.
  pub preflight_status : ℕ

-- The texts "" and "*".
abbrev empty_text : ℕ
empty_text = 0

abbrev pub star : ℕ
star = 1

abbrev pub is_listed : ℕ → List ℕ → Bool
is_listed origin allowed =
    exists (λ o. not (o == empty_text) && not (o == star) && (o == origin)) allowed

abbrev pub is_dev_wildcard : List ℕ → Bool
is_dev_wildcard (o ∷ []) = o == star
is_dev_wildcard os = false

-- `CORS`: the origins are trimmed; nothing is answered to a request without origin.
unfoldable pub cors : List ℕ → (origin : ℕ) → Option CorsAnswer
cors allowed origin =
    if origin == empty_text
    then none
    else if is_listed origin allowed
    then some (record {
      allow_origin = AllowOrigin.only origin;
      credentials = true;
      preflight_status = 204;
    })
    else if is_dev_wildcard allowed
    then some
        (record { allow_origin = AllowOrigin.any; credentials = false; preflight_status = 204 })
    else some
        (record { allow_origin = AllowOrigin.nobody; credentials = false; preflight_status = 403 })
