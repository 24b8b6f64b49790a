-- ===== src/Redis/Store.antt =====
-- A Redis database: keys with a value and maybe a time of expiry, and sets. A key text is its
-- format (such as "pay:processed:%s:%s") and the texts that fill it.
use testmellow.Redis.Challenge.{Challenge}
use testmellow.Prelude.{
  ℕ, Bool, true, ◌&&◌, ◌≡◌, ◌↔◌, Option, none, some, List, arith, ltb, ◌==◌, if◌then◌else◌,
}

pub record Key : Type 0 where
  pub format : ℕ
  pub first : ℕ
  pub second : ℕ

abbrev pub key_eq : Key → Key → Bool
key_eq j k = (j.format == k.format) && (j.first == k.first) && (j.second == k.second)

pub record Entry : Type 0 where
  pub value : ℕ
  pub expires_at : Option ℕ

pub record Cache : Type 0 where
  pub entry : Key → Option Entry
  pub sets : ℕ → List ℕ
  pub set_ends : ℕ → Option ℕ
  -- The keys "tfa:%s", whose values are texts.
  pub challenges : ℕ → Option Challenge

abbrev pub is_live : ℕ → Entry → Bool
is_live now e = elim e.expires_at [ none ↦ true | some t ↦ ltb now t ]

abbrev pub live : ℕ → Option Entry → Option Entry
live now none = none
live now (some e) = if is_live now e then some e else none

-- `GET`: an expired key is absent.
unfoldable pub get : ℕ → Key → Cache → Option Entry
get now k c = live now (c.entry k)

-- `SET` with an expiry, which replaces value and expiry.
unfoldable pub put : Key → Entry → Cache → Cache
put k e c = record c { entry = λ j. if key_eq k j then some e else c.entry j }

-- `DEL`
unfoldable pub del : Key → Cache → Cache
del k c = record c { entry = λ j. if key_eq k j then none else c.entry j }

pub key_eq_iff : (j k : Key) → (key_eq j k ≡ true) ↔ (j ≡ k)
key_eq_iff j k = ground arith

pub key_eq_refl : (k : Key) → key_eq k k ≡ true
key_eq_refl k = ground arith

pub get-put :
    (now : ℕ) (k j : Key) (e : Entry) (c : Cache)
    → get now j (put k e c)
      ≡ (if key_eq k j then (if is_live now e then some e else none) else get now j c)
unfolding get put
get-put now k j e c = ground arith

pub get-del :
    (now : ℕ) (k j : Key) (c : Cache)
    → get now j (del k c) ≡ (if key_eq k j then none else get now j c)
unfolding get del
get-del now k j c = ground arith
