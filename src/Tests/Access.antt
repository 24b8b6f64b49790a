-- ===== src/Tests/Access.antt =====
-- Runs of the webhook, the middleware, trials and the account operations.
use testmellow.Prelude.{◌≡◌, refl, true, false, none, some, [], ◌∷◌, arith, find, ℕ, exists}
use testmellow.Prelude.Int.{pos}
use testmellow.Domain.{PaymentStatus}
use testmellow.World.Exec.{ok, pure, attempt, ◌>>=◌, on_option, on_result, remote, fail_if, query}
use testmellow.Billing.Webhook.{Callback, handle}
use testmellow.Billing.Webhook.Headers.{Accepted, handle-headers}
use testmellow.Repo.Payments.{same_event}
use testmellow.Gate.{
  Claims, admin_db_check, is_admin, CorsAnswer, AllowOrigin, cors, is_listed, is_dev_wildcard,
}
use testmellow.Gate.Access.{is_admin_row, admin_db_check_sound, cors-credentials}
use testmellow.Redis.Challenge.{create_challenge, get_challenge, resolve_challenge, tfa_pending}
use testmellow.Redis.Challenge.Split.{resolve_challenge-get}
use testmellow.Tests.Worlds.{shop_db, sunny, plain_gateway, plain_config}

abbrev confirmation : Callback
confirmation = record { id = 7; status = PaymentStatus.confirmed; amount_kopecks = pos 4001 }

handle-headers_example :
    (¬ Accepted plain_config 1 3
      → handle plain_gateway plain_config 1 3 none sunny ≡ (ok tt, sunny))
    × (Accepted plain_config 1 3
        → (n : ℕ) → (remote sunny).0 ≡ ok n
        → exists
            (same_event confirmation.id confirmation.status)
            (handle plain_gateway plain_config 1 3 (some confirmation) sunny).1.db.webhook_events
          ≡ true)
handle-headers_example = handle-headers plain_gateway plain_config 1 3 none confirmation sunny

abbrev alice_claims : Claims
alice_claims = record { user_id = 1; is_admin = true; issued_at = none }

alice_passes : (admin_db_check alice_claims sunny).0 ≡ ok tt
unfolding admin_db_check is_admin ◌>>=◌ query attempt on_result on_option fail_if remote find pure
alice_passes = refl

admin_db_check_sound_example :
    (true ≡ true)
    × (is_admin_row (find 1 shop_db.users) ≡ true)
    × ((n : ℕ) × ((remote sunny).0 ≡ ok n))
admin_db_check_sound_example = admin_db_check_sound alice_claims sunny alice_passes

abbrev echo : CorsAnswer
echo = record { allow_origin = AllowOrigin.only 5; credentials = true; preflight_status = 204 }

cors-credentials_example :
    (true ≡ true → (is_listed 5 (4 ∷ 5 ∷ []) ≡ true) × (echo.allow_origin ≡ AllowOrigin.only 5))
    × (echo.allow_origin ≡ AllowOrigin.any → is_dev_wildcard (4 ∷ 5 ∷ []) ≡ true)
    × (is_listed 5 (4 ∷ 5 ∷ []) ≡ false
        → is_dev_wildcard (4 ∷ 5 ∷ []) ≡ false
        → (echo.preflight_status ≡ 403) × (echo.allow_origin ≡ AllowOrigin.nobody))
unfolding cors
cors-credentials_example = cors-credentials (4 ∷ 5 ∷ []) 5 echo refl

resolve_challenge-get_example :
    (get_challenge 200 (create_challenge 100 (97 ∷ [])) ≡ some (97 ∷ [], tfa_pending))
    × (get_challenge 300 (resolve_challenge 200 (110 ∷ []) (create_challenge 100 (97 ∷ [])))
        ≡ some (97 ∷ [], 110 ∷ []))
    × (get_challenge 300 (resolve_challenge 200 (110 ∷ []) none) ≡ none)
resolve_challenge-get_example =
    resolve_challenge-get (97 ∷ []) (110 ∷ []) 100 200 300 refl (omega arith) (omega arith)
