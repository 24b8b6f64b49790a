-- ===== src/Admin/Catalog.antt =====
-- internal/handler/admin/admin.go: promo codes, shop items and the reset of a limit. A code is given
-- as it is after TrimSpace and ToUpper; the lengths of texts are given by `valid`.
use testmellow.Prelude.{
  ℕ, ◌-◌, ◌^◌, Bool, true, ◌&&◌, ◌||◌, not, Option, none, some, ◌∷◌, ltb, ◌==◌, if◌then◌else◌, find,
  is_some, any_row,
}
use testmellow.Prelude.Int.{ℤ, pos, negsuc, leb_ℤ, ltb_ℤ}
use testmellow.Domain.{PromoType}
use testmellow.World.Rows.{Db}
use testmellow.World.Exec.{
  Error, Exec, pure, raise, ◌>>=◌, ◌>>◌, on_option, fail_if, new_id, query, modify_db,
}
use testmellow.Admin.{audit}
use testmellow.Redis.Store.{del}
use testmellow.Redis.Limits.{script, rate_limit_key}
use testmellow.Billing.Checkout.{payment_init}

-- The text `promo_type` of a request.
pub data PromoTypeText : Type 0 where
  absent unknown : PromoTypeText
  known : PromoType → PromoTypeText

-- `expires_at`: null, a time, or a text that time.Parse refuses.
pub data ExpiryText : Type 0 where
  never malformed : ExpiryText
  at : ℕ → ExpiryText

-- `createPromoRequest`; `valid` says that the code has 4 to 32 characters.
pub record CreatePromo : Type 0 where
  pub valid : Bool
  pub code : ℕ
  pub promo_type : PromoTypeText
  pub yad_amount : ℤ
  pub discount_percent : ℤ
  pub max_uses : ℤ
  pub expires_at : ExpiryText

-- The type, "yad" where the request has none.
abbrev chosen_type : PromoTypeText → Option PromoType
chosen_type PromoTypeText.absent = some PromoType.yad
chosen_type PromoTypeText.unknown = none
chosen_type (PromoTypeText.known t) = some t

abbrev valid_amount : PromoType → CreatePromo → Bool
valid_amount PromoType.yad r = leb_ℤ (pos 1) r.yad_amount
valid_amount PromoType.discount r =
    leb_ℤ (pos 1) r.discount_percent && leb_ℤ r.discount_percent (pos 100)

abbrev chosen_expiry : ExpiryText → Option (Option ℕ)
chosen_expiry ExpiryText.never = some none
chosen_expiry ExpiryText.malformed = none
chosen_expiry (ExpiryText.at t) = some (some t)

abbrev amount : ℤ → ℕ
amount (pos n) = n
amount (negsuc n) = 0

-- The columns of `promocodes`: the checks on both amounts, INTEGER for the uses, the unique code and
-- the author.
abbrev promo_refused : ℕ → CreatePromo → Db → Option Error
promo_refused author r d =
    if ltb_ℤ r.yad_amount (pos 0)
      || ltb_ℤ r.discount_percent (pos 0)
      || ltb_ℤ (pos 100) r.discount_percent
      || ltb_ℤ (pos (2 ^ 31 - 1)) r.max_uses
    then some Error.out_of_range
    else if any_row (λ p. p.code == r.code) d.promocodes
    then some Error.unique_violation
    else if is_some (find author d.users)
    then none
    else some Error.foreign_key_violation

-- `CreatePromoCode` of user_repo.go.
unfoldable pub insert_promo_code :
    (id author : ℕ) → CreatePromo → PromoType → Option ℕ → Exec (Unit {0})
insert_promo_code id author r t expiry = do
  refused ← query (promo_refused author r)
  on_option refused
      (modify_db (λ d. record d {
        promocodes =
            (
              id,
              record {
                code = r.code;
                promo_type = t;
                yad_amount = amount r.yad_amount;
                discount_percent = r.discount_percent;
                max_uses = amount r.max_uses;
                used_count = 0;
                expires_at = expiry;
              },
            )
            ∷ d.promocodes;
      }))
      raise

-- `CreatePromoCode` of the handler.
unfoldable pub create_promo_code : (admin_id : ℕ) → CreatePromo → Exec ℕ
unfolding insert_promo_code
create_promo_code admin_id r = do
  fail_if (not r.valid || ltb_ℤ r.max_uses (pos 1)) Error.invalid_request
  on_option (chosen_type r.promo_type) (raise Error.invalid_request) λ t. do
    fail_if (not (valid_amount t r)) Error.invalid_request
    id ← new_id
    on_option (chosen_expiry r.expires_at) (raise Error.invalid_request)
        λ expiry. do insert_promo_code id admin_id r t expiry; audit; pure id

-- The stock of a request without one is -1, which is no limit.
abbrev stock_or_unlimited : ℤ → ℤ
stock_or_unlimited (pos n) = if n == 0 then negsuc 0 else pos n
stock_or_unlimited s = s

abbrev fits_integer : ℤ → Bool
fits_integer (pos n) = ltb n (2 ^ 31)
fits_integer (negsuc n) = ltb n (2 ^ 31)

-- `CreateShopItem`, of the handler and of user_repo.go; `valid` says that there is a name of a
-- length that the column takes.
unfoldable pub create_shop_item : (valid : Bool) (price_yad stock : ℤ) → Exec ℕ
create_shop_item valid price_yad stock = do
  fail_if (not valid || ltb_ℤ price_yad (pos 1)) Error.invalid_request
  id ← new_id
  fits ← query (λ d. fits_integer (stock_or_unlimited stock))
  fail_if (not fits) Error.out_of_range
  modify_db (λ d. record d {
    shop_items =
        (
          id,
          record {
            price_yad = amount price_yad;
            stock = stock_or_unlimited stock;
            is_active = true;
          },
        )
        ∷ d.shop_items;
  })
  audit
  pure id

-- `ResetRateLimit` of internal/anticheat/engine.go.
unfoldable pub reset_rate_limit : (user_id action : ℕ) → Exec (Unit {0})
reset_rate_limit user_id action = script (λ now c. (tt, del (rate_limit_key action user_id) c))

-- `ResetPaymentLimit`
unfoldable pub reset_payment_limit : ℕ → Exec (Unit {0})
unfolding reset_rate_limit
reset_payment_limit user_id = do reset_rate_limit user_id payment_init; audit
