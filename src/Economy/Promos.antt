-- ===== src/Economy/Promos.antt =====
-- Promo codes are used within their limits.
use testmellow.Prelude.{
  ℕ, suc, ◌+◌, ◌≤◌, ◌≡◌, Bool, true, false, Option, none, some, List, [], ◌∷◌, arith, leb, ◌==◌,
  exists, find, find-update, Table, Option-cases, update, if◌then◌else◌, inl, inr,
}
use testmellow.Prelude.Int.{ℤ}
use testmellow.Domain.{PromoType, YadTxType}
use testmellow.World.Rows.{Db, PromoCode, PromoCodeUse}
use testmellow.World.Exec.{ok, World, ◌>>=◌, query, modify_db, fail_if, remote}
use testmellow.World.Keeps.{Keeps, keeps_rules}
use testmellow.World.KeepsOk.{KeepsOk, Keeps-transaction_ok, KeepsOk-of_Keeps, KeepsOk-bind}
use testmellow.Repo.Promos.{
  get_promo_by_code, has_user_used_promo, use_promo_code, is_use, has_uses_left,
}
use testmellow.Repo.Users.{get_active_discount, set_active_discount, adjust_yad_balance}
use testmellow.Economy.Accounts.{redeem_promo, apply_promo}

-- The uses of a code.
abbrev pub uses_of : ℕ → List PromoCodeUse → ℕ
uses_of id [] = 0
uses_of id (u ∷ us) = let rest = uses_of id us in if u.promo_code_id == id then suc rest else rest

abbrev pub count_of : Option PromoCode → ℕ
count_of none = 0
count_of (some p) = p.used_count

abbrev pub within_max : Option PromoCode → Bool
within_max none = true
within_max (some p) = leb p.used_count p.max_uses

-- No user stands twice among the uses of a code.
abbrev pub AllDistinct : List PromoCodeUse → Type 0
AllDistinct [] = Unit
AllDistinct (u ∷ us) = (exists (is_use u.promo_code_id u.user_id) us ≡ false) × AllDistinct us

pub record IsCounted (d : Db) : Type 0 where
  pub counted : (id : ℕ) → uses_of id d.promocode_uses ≤ count_of (find id d.promocodes)
  pub limited : (id : ℕ) → within_max (find id d.promocodes) ≡ true
  pub distinct : AllDistinct d.promocode_uses

abbrev used_up : PromoCode → PromoCode
used_up p = record p { used_count = p.used_count + 1 }

module _ (id user : ℕ) where
  -- What a use that succeeds has found and written.
  use_promo_code_ok :
      (w : World) (a : Unit {0})
      → (use_promo_code id user w).0 ≡ ok a
      → (has_uses_left (find id w.db.promocodes) ≡ true)
        × (exists (is_use id user) w.db.promocode_uses ≡ false)
        × ((use_promo_code id user w).1.db.promocodes ≡ update id used_up w.db.promocodes)
        × ((use_promo_code id user w).1.db.promocode_uses
            ≡ record { promo_code_id = id; user_id = user } ∷ w.db.promocode_uses)
  unfolding use_promo_code ◌>>=◌ query modify_db fail_if remote
  use_promo_code_ok w a h = (ground arith, ground arith, ground arith, ground arith)

  counted_step :
      (j : ℕ) (t : Table PromoCode) (us : List PromoCodeUse)
      → has_uses_left (find id t) ≡ true
      → uses_of j us ≤ count_of (find j t)
      → uses_of j (record { promo_code_id = id; user_id = user } ∷ us)
        ≤ count_of (find j (update id used_up t))
  counted_step j t us left c = elim (Option-cases (find j t)) [
    | inl n ↦ ground (arith, find-update id j used_up t, n)
    | inr (p, e) ↦ ground (arith, find-update id j used_up t, e)
  ]

  limited_step :
      (j : ℕ) (t : Table PromoCode)
      → has_uses_left (find id t) ≡ true
      → within_max (find j t) ≡ true
      → within_max (find j (update id used_up t)) ≡ true
  limited_step j t left c = elim (Option-cases (find j t)) [
    | inl n ↦ ground (arith, find-update id j used_up t, n)
    | inr (p, e) ↦ ground (arith, find-update id j used_up t, e)
  ]

  use_promo_code-IsCounted : KeepsOk IsCounted (use_promo_code id user)
  use_promo_code-IsCounted = record { at = λ w c a h. step w c (use_promo_code_ok w a h) }
    where
      step :
          (w : World)
          → IsCounted w.db
          → (has_uses_left (find id w.db.promocodes) ≡ true)
            × (exists (is_use id user) w.db.promocode_uses ≡ false)
            × ((use_promo_code id user w).1.db.promocodes ≡ update id used_up w.db.promocodes)
            × ((use_promo_code id user w).1.db.promocode_uses
                ≡ record { promo_code_id = id; user_id = user } ∷ w.db.promocode_uses)
          → IsCounted (use_promo_code id user w).1.db
      step w c (left, fresh, codes, uses) = record {
        counted = λ j.
            rw (codes, uses)
              (counted_step j w.db.promocodes w.db.promocode_uses left (c.counted j));
        limited = λ j. rw codes (limited_step j w.db.promocodes left (c.limited j));
        distinct = rw uses (fresh, c.distinct);
      }

-- The users, their ledger and their discounts are free.
same-IsCounted :
    (d e : Db)
    → e.promocodes ≡ d.promocodes
    → e.promocode_uses ≡ d.promocode_uses
    → IsCounted d
    → IsCounted e
same-IsCounted d e p q c = record {
  counted = λ j. rw (p, q) (c.counted j);
  limited = λ j. rw p (c.limited j);
  distinct = rw q c.distinct;
}

get_promo-IsCounted : (code : ℕ) → Keeps IsCounted (get_promo_by_code code)
unfolding get_promo_by_code
get_promo-IsCounted code = search keeps_rules

has_used-IsCounted : (id user : ℕ) → Keeps IsCounted (has_user_used_promo id user)
unfolding has_user_used_promo
has_used-IsCounted id user = search keeps_rules

get_discount-IsCounted : (user : ℕ) → Keeps IsCounted (get_active_discount user)
unfolding get_active_discount
get_discount-IsCounted user = search keeps_rules

set_discount-IsCounted : (user code : ℕ) (x : ℤ) → Keeps IsCounted (set_active_discount user code x)
unfolding set_active_discount
set_discount-IsCounted user code x = search (keeps_rules, same-IsCounted) depth 12

adjust-IsCounted :
    (user : ℕ) (x : ℤ) (ty : YadTxType) (r : Option ℕ)
    → Keeps IsCounted (adjust_yad_balance user x ty r)
unfolding adjust_yad_balance
adjust-IsCounted user x ty r = search (keeps_rules, same-IsCounted) depth 12

apply_promo-IsCounted :
    (user id : ℕ) (p : PromoCode) (ty : PromoType) → Keeps IsCounted (apply_promo user id p ty)
unfolding apply_promo
apply_promo-IsCounted user id p PromoType.discount =
    search
      (
        keeps_rules, Keeps-transaction_ok, use_promo_code-IsCounted, get_discount-IsCounted,
        set_discount-IsCounted,
      )
      depth 12
apply_promo-IsCounted user id p PromoType.yad =
    search
      (
        Keeps-transaction_ok, KeepsOk-bind, KeepsOk-of_Keeps, use_promo_code-IsCounted,
        adjust-IsCounted,
      )
      depth 12

Keeps-IsCounted : (user code : ℕ) → Keeps IsCounted (redeem_promo user code)
unfolding redeem_promo
Keeps-IsCounted user code =
    search (keeps_rules, get_promo-IsCounted, has_used-IsCounted, apply_promo-IsCounted) depth 20

-- Redeeming a code, with any failures, keeps these three: a code has no more uses than its counter
-- says, no counter is above its maximum, and no user stands twice among the uses of a code. So a
-- code is used at most `max_uses` times, and at most once by each user.
pub redeem_promo-IsCounted :
    (user code : ℕ) (w : World) → IsCounted w.db → IsCounted (redeem_promo user code w).1.db
redeem_promo-IsCounted user code w c = (Keeps-IsCounted user code).at w c
