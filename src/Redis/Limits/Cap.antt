-- ===== src/Redis/Limits/Cap.antt =====
-- The daily cap on YAD credits.
use testmellow.Prelude.{
  ℕ, ◌+◌, ◌≤◌, ◌<◌, ◌≡◌, refl, Option, none, some, List, [], ◌∷◌, arith, ◌==◌, if◌then◌else◌, All,
}
use testmellow.Redis.Store.{Key, Entry, Cache, get, get-put, key_eq_refl}
use testmellow.Redis.Limits.{yad_cap_script, count_in, keep_expiry}

-- What a credit counts for: its amount if the script accepts it.
abbrev pub accepted : Option ℕ → ℕ → ℕ
accepted none amount = 0
accepted (some n) amount = amount

-- The sum of the accepted ones of a list of credits (a time and an amount each, the latest first),
-- and the cache after them.
abbrev pub run_credits : Key → (cap day_end : ℕ) → List (ℕ × ℕ) → Cache → ℕ × Cache
run_credits key cap day_end [] c = (0, c)
run_credits key cap day_end ((t, amount) ∷ xs) c =
    let (sum, c') = run_credits key cap day_end xs c in
    let (r, d) = yad_cap_script t key amount cap day_end c' in (sum + accepted r amount, d)

-- The counter holds the sum, and keeps it until the end of the day.
record Holds (key : Key) (day_end : ℕ) (r : ℕ × Cache) : Type 0 where
  count : (t : ℕ) → t < day_end → count_in (get t key r.1) ≡ r.0
  expiry : (t : ℕ) (e : Entry) → t < day_end → get t key r.1 ≡ some e → e.expires_at ≡ some day_end

expiry_after :
    (amount day_end : ℕ) (o : Option Entry)
    → ((e : Entry) → o ≡ some e → e.expires_at ≡ some day_end)
    → (if count_in o + amount == amount then some day_end else keep_expiry o) ≡ some day_end
expiry_after amount day_end none h = ground arith
expiry_after amount day_end (some e) h = ground (arith, h e refl)

credit-Holds :
    (key : Key) (cap day_end t amount sum : ℕ) (c : Cache)
    → t < day_end
    → Holds key day_end (sum, c)
    → Holds key day_end (
      sum + accepted (yad_cap_script t key amount cap day_end c).0 amount,
      (yad_cap_script t key amount cap day_end c).1,
    )
unfolding yad_cap_script
credit-Holds key cap day_end t amount sum c l h =
    let x = expiry_after amount day_end (get t key c) (λ e. h.expiry t e l) in
    record {
      count = λ u m. ground (
        arith,
        x,
        h.count t l,
        h.count u m,
        key_eq_refl key,
        get-put u key key (record { value = sum + amount; expires_at = some day_end }) c,
      );
      expiry = λ u e m. ground (
        arith,
        x,
        h.count t l,
        h.expiry u e m,
        key_eq_refl key,
        get-put u key key (record { value = sum + amount; expires_at = some day_end }) c,
      );
    }

run_credits-Holds :
    (key : Key) (cap day_end : ℕ) (xs : List (ℕ × ℕ)) (c : Cache)
    → ((t : ℕ) → t < day_end → get t key c ≡ none)
    → All (λ x. x.0 < day_end) xs
    → Holds key day_end (run_credits key cap day_end xs c)
run_credits-Holds key cap day_end [] c free a = record {
  count = λ t l. ground (arith, free t l);
  expiry = λ t e l. ground (arith, free t l);
}
run_credits-Holds key cap day_end ((t, x) ∷ xs) c free (l, a) =
    credit-Holds key cap day_end t x _ _ l (run_credits-Holds key cap day_end xs c free a)

accepted_le :
    (key : Key) (cap day_end t amount sum : ℕ) (c : Cache)
    → t < day_end
    → sum ≤ cap
    → Holds key day_end (sum, c)
    → sum + accepted (yad_cap_script t key amount cap day_end c).0 amount ≤ cap
unfolding yad_cap_script
accepted_le key cap day_end t amount sum c l le h = ground (arith, h.count t l)

-- For a counter that is absent at the start of the day, and any credits of one day in any order of
-- their times: the accepted amounts add up to at most the cap, and the counter holds their sum
-- until the day ends, so the limit is on the whole day.
pub run_credits-capped :
    (key : Key) (cap day_end : ℕ) (xs : List (ℕ × ℕ)) (c : Cache)
    → ((t : ℕ) → t < day_end → get t key c ≡ none)
    → All (λ x. x.0 < day_end) xs
    → ((run_credits key cap day_end xs c).0 ≤ cap)
      × ((t : ℕ)
          → t < day_end
          → count_in (get t key (run_credits key cap day_end xs c).1)
            ≡ (run_credits key cap day_end xs c).0)
run_credits-capped key cap day_end [] c free a =
    (omega arith, (run_credits-Holds key cap day_end [] c free a).count)
run_credits-capped key cap day_end ((t, x) ∷ xs) c free (l, a) = (
  accepted_le key cap day_end t x _ _ l (run_credits-capped key cap day_end xs c free a).0
      (run_credits-Holds key cap day_end xs c free a),
  (run_credits-Holds key cap day_end ((t, x) ∷ xs) c free (l, a)).count,
)
