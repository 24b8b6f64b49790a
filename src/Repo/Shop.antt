-- ===== src/Repo/Shop.antt =====
-- user_repo.go: the shop.
pub mod Oversell
use testmellow.Prelude.{
  ℕ, ◌-◌, ◌^◌, Bool, true, false, ◌&&◌, ◌||◌, Option, none, some, List, ◌∷◌, ltb, if◌then◌else◌,
  find, update,
}
use testmellow.Prelude.Int.{ℤ, pos, negsuc, ◌-ℤ◌, leb_ℤ, ltb_ℤ}
use testmellow.World.Rows.{Db, ShopItem, ShopOrder}
use testmellow.World.Exec.{
  Error, Exec, pure, raise, ◌>>=◌, ◌>>◌, on_option, fail_if, query, modify_db, execute,
}

-- `stock = -1`: without limit.
abbrev pub is_unlimited : ℤ → Bool
is_unlimited s = leb_ℤ s (negsuc 0) && leb_ℤ (negsuc 0) s

unfoldable pub get_shop_item_by_id : ℕ → Exec (Option ShopItem)
get_shop_item_by_id id = query (λ d. find id d.shop_items)

-- One row of the UPDATE: its WHERE clause, and the CASE that lowers a positive stock.
unfoldable pub take_from_stock : ℕ → ShopItem → ShopItem
take_from_stock quantity item =
    if item.is_active && (leb_ℤ (pos quantity) item.stock || is_unlimited item.stock)
    then (if ltb_ℤ (pos 0) item.stock
        then record item { stock = item.stock -ℤ pos quantity }
        else item)
    else item

-- `BuyShopItem` of the repository. The quantity is sent as INTEGER.
unfoldable pub insert_order : ℕ → ShopOrder → Exec (Unit {0})
unfolding take_from_stock
insert_order id order = do
  fail_if (ltb (2 ^ 31 - 1) order.quantity) Error.out_of_range
  execute (λ d. record d {
    shop_items = update order.item_id (take_from_stock order.quantity) d.shop_items;
  })
  execute (λ d. record d { shop_orders = (id, order) ∷ d.shop_orders })
