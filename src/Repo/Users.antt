-- ===== src/Repo/Users.antt =====
-- user_repo.go: users and the YAD ledger.
pub mod Ltv
use testmellow.Prelude.{
  ℕ, ◌+◌, Bool, true, false, ◌&&◌, not, Option, none, some, List, ◌∷◌, ◌==◌, if◌then◌else◌, find,
  update, rows_where, length,
}
use testmellow.Prelude.Int.{ℤ, pos, ◌+ℤ◌, ◌-ℤ◌, neg, leb_ℤ, in_int64}
use testmellow.Domain.{YadTxType}
use testmellow.World.Rows.{Db, User, YadTransaction}
use testmellow.World.Exec.{
  Error, Result, ok, err, Exec, pure, raise, lift, ◌>>=◌, ◌>>◌, on_option, fail_if, query,
  modify_db, execute,
}

abbrev pub map_user : ℕ → (User → User) → Db → Db
map_user id f d = record d { users = update id f d.users }

unfoldable pub get_by_id : ℕ → Exec (Option User)
get_by_id id = query (λ d. find id d.users)

-- `SELECT id … FOR UPDATE`
unfoldable pub lock_user_for_update : ℕ → Exec (Unit {0})
unfolding get_by_id
lock_user_for_update id = do
  row ← get_by_id id
  on_option row (raise Error.user_not_found) λ _. pure tt

-- The new value of a BIGINT column.
abbrev pub bigint_sum : ℤ → ℤ → Result ℤ
bigint_sum a delta = let sum = a +ℤ delta in if in_int64 sum then ok sum else err Error.out_of_range

-- The balance that the guarded `UPDATE … RETURNING yad_balance` gives, if it finds a row.
unfoldable pub adjusted_balance : ℤ → Option User → Result ℤ
adjusted_balance delta none = err Error.insufficient_balance
adjusted_balance delta (some u) =
    let sum = u.yad_balance +ℤ delta in
    if in_int64 sum
    then (if leb_ℤ (pos 0) sum then ok sum else err Error.insufficient_balance)
    else err Error.out_of_range

abbrev pub set_balance : ℕ → ℤ → Db → Db
set_balance id balance = map_user id (λ u. record u { yad_balance = balance })

abbrev pub add_transaction : YadTransaction → Db → Db
add_transaction t d = record d { yad_transactions = t ∷ d.yad_transactions }

-- `AdjustYADBalance`
unfoldable pub adjust_yad_balance : ℕ → ℤ → YadTxType → Option ℕ → Exec (Unit {0})
unfolding adjusted_balance
adjust_yad_balance user_id delta tx_type ref_id = do
  row ← query (λ d. find user_id d.users)
  balance ← lift (adjusted_balance delta row)
  modify_db (set_balance user_id balance)
  execute (
      add_transaction (record {
        user_id = user_id;
        delta = delta;
        balance = balance;
        tx_type = tx_type;
        ref_id = ref_id;
      }))

-- `LEAST(yad_balance, $1)`
abbrev pub least : ℤ → ℤ → ℤ
least a b = if leb_ℤ a b then a else b

abbrev pub is_zero : ℤ → Bool
is_zero a = leb_ℤ a (pos 0) && leb_ℤ (pos 0) a

-- `ClawbackYAD`: the amount taken.
clawback_from : ℕ → ℕ → Option ℕ → User → Exec ℤ
clawback_from user_id amount ref_id u = do
  let taken = least u.yad_balance (pos amount)
  let balance = u.yad_balance -ℤ taken
  modify_db (set_balance user_id balance)
  if is_zero taken then pure (pos 0) else do
    execute (
        add_transaction (record {
          user_id = user_id;
          delta = neg taken;
          balance = balance;
          tx_type = YadTxType.chargeback_clawback;
          ref_id = ref_id;
        }))
    pure taken

unfoldable pub clawback_yad : ℕ → ℕ → Option ℕ → Exec ℤ
unfolding clawback_from
clawback_yad user_id amount ref_id = if amount == 0 then pure (pos 0) else do
  row ← query (λ d. find user_id d.users)
  on_option row (raise Error.user_not_found) (clawback_from user_id amount ref_id)

-- `UpdateLTV`: no row is no error, a sum out of range is one.
unfoldable pub update_ltv : ℕ → ℤ → Exec (Unit {0})
update_ltv user_id add_kopecks = do
  row ← query (λ d. find user_id d.users)
  on_option row (pure tt) λ u. do
    ltv ← lift (bigint_sum u.ltv add_kopecks)
    modify_db (map_user user_id (λ u. record u { ltv = ltv }))

-- `UpdateRemnaUUID` does not overwrite with the empty text.
unfoldable pub update_remna_uuid : ℕ → ℕ → Exec (Unit {0})
update_remna_uuid user_id remna_uuid =
    if remna_uuid == 0
    then pure tt
    else execute (map_user user_id (λ u. record u { remna_user_uuid = some remna_uuid }))

abbrev unused_trial : Option User → Bool
unused_trial none = false
unused_trial (some u) = not u.trial_used

-- `SetTrialUsedTx`: an error unless the statement changes a row.
unfoldable pub set_trial_used_tx : ℕ → Exec (Unit {0})
set_trial_used_tx user_id = do
  row ← query (λ d. find user_id d.users)
  fail_if (not (unused_trial row)) Error.trial_used
  modify_db (map_user user_id (λ u. record u { trial_used = true }))

unfoldable pub increment_device_expansion_count : ℕ → Exec (Unit {0})
increment_device_expansion_count user_id =
    execute
      (map_user user_id (λ u. record u { device_expansion_count = u.device_expansion_count + 1 }))

-- The CHECK on `active_discount_percent`.
abbrev valid_percent : ℤ → Bool
valid_percent p = leb_ℤ (pos 0) p && leb_ℤ p (pos 100)

unfoldable pub set_active_discount : ℕ → ℕ → ℤ → Exec (Unit {0})
set_active_discount user_id code percent = do
  row ← query (λ d. find user_id d.users)
  on_option row (pure tt) λ _. do
    fail_if (not (valid_percent percent)) Error.db_error
    modify_db (
        map_user user_id
          (λ u. record u { active_discount_code = some code; active_discount_percent = percent }))

abbrev discount_of : Option User → ℕ × ℤ
discount_of none = (0, pos 0)
discount_of (some u) = elim u.active_discount_code [
  | none ↦ (0, pos 0)
  | some c ↦ (c, u.active_discount_percent)
]

unfoldable pub get_active_discount : ℕ → Exec (ℕ × ℤ)
get_active_discount user_id = query (λ d. discount_of (find user_id d.users))

unfoldable pub clear_active_discount : ℕ → Exec (Unit {0})
clear_active_discount user_id = execute (
    map_user user_id
      (λ u. record u { active_discount_code = none; active_discount_percent = pos 0 }))
