-- ===== src/Repo/Shop/Oversell.antt =====
-- What the repository's BuyShopItem does with the stock.
use testmellow.Prelude.{ℕ, ◌≡◌, false, some, ◌∷◌, arith, find, find-update, update, eq_refl}
use testmellow.Prelude.Int.{pos, leb_ℤ}
use testmellow.World.Rows.{ShopItem, ShopOrder}
use testmellow.World.Exec.{ok, World, ◌>>=◌, modify_db, execute, fail_if, remote}
use testmellow.Repo.Shop.{insert_order, take_from_stock, is_unlimited}

insert_order_ok :
    (id : ℕ) (o : ShopOrder) (w : World)
    → (insert_order id o w).0 ≡ ok tt
    → ((insert_order id o w).1.db.shop_items
        ≡ update o.item_id (take_from_stock o.quantity) w.db.shop_items)
      × ((insert_order id o w).1.db.shop_orders ≡ (id, o) ∷ w.db.shop_orders)
unfolding insert_order ◌>>=◌ execute modify_db fail_if remote
insert_order_ok id o w h = (ground arith, ground arith)

kept_item :
    (quantity : ℕ) (item : ShopItem)
    → leb_ℤ (pos quantity) item.stock ≡ false
    → is_unlimited item.stock ≡ false
    → take_from_stock quantity item ≡ item
unfolding take_from_stock
kept_item quantity item a b = ground arith

-- The repository's BuyShopItem on an item with a limited stock below the quantity, when it returns no
-- error: the order is in the table, and the stock is what it was. (The service tests the stock
-- before, but not in the transaction.)
pub insert_order-oversells :
    (id : ℕ) (o : ShopOrder) (w : World) (item : ShopItem)
    → find o.item_id w.db.shop_items ≡ some item
    → leb_ℤ (pos o.quantity) item.stock ≡ false
    → is_unlimited item.stock ≡ false
    → (insert_order id o w).0 ≡ ok tt
    → ((insert_order id o w).1.db.shop_orders ≡ (id, o) ∷ w.db.shop_orders)
      × (find o.item_id (insert_order id o w).1.db.shop_items ≡ some item)
insert_order-oversells id o w item e a b h =
    let (items, orders) = insert_order_ok id o w h in
    (
      orders,
      rw (items, find-update, e) (ground (arith, eq_refl o.item_id, kept_item o.quantity item a b)),
    )
