-- ===== src/Economy/Accounts.antt =====
-- internal/service/service.go, EconomyService: credits and debits of YAD, promo codes, the shop.
use testmellow.Prelude.{ℕ, ◌*◌, Bool, false, ◌&&◌, not, Option, none, some, ltb, leb}
use testmellow.Prelude.Int.{ℤ, pos, pos_part, neg, leb_ℤ, ltb_ℤ, to_int64}
use testmellow.Domain.{YadTxType, PromoType}
use testmellow.World.Rows.{User, PromoCode, ShopItem, ShopOrder}
use testmellow.World.Exec.{
  Error, Exec, pure, raise, attempt, ◌>>=◌, ◌>>◌, on_option, on_result, fail_if, now, new_id,
  transaction,
}
use testmellow.Redis.Limits.{check_and_add_daily_yad_credit}
use testmellow.Repo.Users.{get_by_id, adjust_yad_balance, get_active_discount, set_active_discount}
use testmellow.Repo.Promos.{get_promo_by_code, has_user_used_promo, use_promo_code}
use testmellow.Repo.Shop.{is_unlimited, get_shop_item_by_id, insert_order}

-- `user, err := GetByID(…); if err != nil || user == nil { return … }`
unfoldable pub require_user : ℕ → Exec User
require_user user_id = do
  row ← attempt (get_by_id user_id)
  on_result row (λ _. raise Error.user_not_found)
      λ found. on_option found (raise Error.user_not_found) pure

-- `CreditYAD`
unfoldable pub credit_yad : ℕ → ℤ → YadTxType → Option ℕ → Exec (Unit {0})
credit_yad user_id amount tx_type ref_id = do
  fail_if (leb_ℤ amount (pos 0)) Error.bad_amount
  check_and_add_daily_yad_credit user_id (pos_part amount)
  transaction (adjust_yad_balance user_id amount tx_type ref_id)

-- `DebitYAD`
unfoldable pub debit_yad : ℕ → ℤ → YadTxType → Option ℕ → Exec (Unit {0})
debit_yad user_id amount tx_type ref_id = do
  fail_if (leb_ℤ amount (pos 0)) Error.bad_amount
  transaction (adjust_yad_balance user_id (neg amount) tx_type ref_id)

-- `promo.ExpiresAt != nil && promo.ExpiresAt.Before(time.Now())`
abbrev pub is_before : Option ℕ → ℕ → Bool
is_before none t = false
is_before (some e) t = ltb e t

-- A discount code: stored on the user, no YAD.
apply_discount : ℕ → ℕ → PromoCode → Exec (Unit {0})
apply_discount user_id promo_id promo = do
  discount ← get_active_discount user_id
  fail_if (ltb_ℤ (pos 0) discount.1) Error.discount_active
  transaction (use_promo_code promo_id user_id)
  set_active_discount user_id promo.code promo.discount_percent

-- A YAD code: use and credit in one transaction.
apply_yad : ℕ → ℕ → PromoCode → Exec (Unit {0})
apply_yad user_id promo_id promo = transaction do
  use_promo_code promo_id user_id
  adjust_yad_balance user_id (pos promo.yad_amount) YadTxType.promo (some promo_id)

unfoldable pub apply_promo : ℕ → ℕ → PromoCode → PromoType → Exec (Unit {0})
unfolding apply_discount apply_yad
apply_promo user_id promo_id promo PromoType.discount = apply_discount user_id promo_id promo
apply_promo user_id promo_id promo PromoType.yad = apply_yad user_id promo_id promo

-- `UsePromoCode` of the service.
unfoldable pub redeem_promo : ℕ → ℕ → Exec (Unit {0})
redeem_promo user_id code = do
  row ← get_promo_by_code code
  on_option row (raise Error.promo_not_found) λ (promo_id, promo). do
    t ← now
    fail_if (is_before promo.expires_at t) Error.promo_expired
    fail_if (leb promo.max_uses promo.used_count) Error.promo_unavailable
    used ← has_user_used_promo promo_id user_id
    fail_if used Error.promo_used
    apply_promo user_id promo_id promo promo.promo_type

-- `item.Stock != -1 && item.Stock < quantity`
abbrev short_of : ShopItem → ℕ → Bool
short_of item quantity = not (is_unlimited item.stock) && ltb_ℤ item.stock (pos quantity)

-- The order and the debit in one transaction.
place_order : ℕ → ℕ → ℕ → ℤ → Exec ShopOrder
place_order user_id item_id quantity total = transaction do
  order_id ← new_id
  let order : ShopOrder = record {
    user_id = user_id;
    item_id = item_id;
    quantity = quantity;
    total_yad = total;
  }
  insert_order order_id order
  adjust_yad_balance user_id (neg total) YadTxType.spent (some order_id)
  pure order

-- `BuyShopItem` of the service. The quantity is positive after the first test; the product wraps as
-- `int64` does.
unfoldable pub buy_shop_item : ℕ → ℕ → ℕ → Exec ShopOrder
unfolding place_order
buy_shop_item user_id item_id quantity = do
  fail_if (leb quantity 0) Error.bad_quantity
  row ← get_shop_item_by_id item_id
  on_option row (raise Error.item_not_found) λ item. do
    fail_if (not item.is_active) Error.item_not_found
    fail_if (short_of item quantity) Error.out_of_stock
    let total = to_int64 (item.price_yad * quantity)
    user ← require_user user_id
    fail_if (ltb_ℤ user.yad_balance total) Error.insufficient_balance
    place_order user_id item_id quantity total
