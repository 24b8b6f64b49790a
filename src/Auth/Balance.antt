-- ===== src/Auth/Balance.antt =====
-- Registration and login keep the ledger balanced: a new account has no YAD and no ledger rows.
use testmellow.Prelude.{
  ℕ, ◌∷◌, Bool-cases, inl, inr, ◌≡◌, refl, Bool, Option, none, some, arith, find, ◌==◌, find-cons,
}
use testmellow.Prelude.Int.{pos, int_laws, ◌≤ℤ◌}
use testmellow.World.Rows.{Db, User, Referral, Login}
use testmellow.World.Exec.{World, ◌>>=◌, query, modify_db, fail_if}
use testmellow.World.Keeps.{
  Keeps, keeps_rules, Keeps-on_option, Keeps-raise, Keeps-remote, Keeps-bind,
}
use testmellow.World.Gives.{Gives, gives_rules, Keeps-bind_Gives}
use testmellow.Redis.Limits.Reads.{
  check_rate_limit-Keeps, check_daily_referral_limit-Keeps, check_login_rate_limit-Keeps,
  record_failed_login-Keeps, reset_login_attempts-Keeps,
}
use testmellow.Repo.Accounts.{
  get_by_username, get_by_referral_code, count_users_from_ip, count_users_from_fingerprint,
  count_admins, create_user, create_referral, update_last_known_ip, create_account_activity,
  has_seen_user_agent,
}
use testmellow.Ledger.{IsBalanced, balance_of}
use testmellow.Ledger.Statements.{map_user-IsBalanced}
use testmellow.Ledger.Tables.{same-IsBalanced}
use testmellow.Auth.Register.{
  RegisterInput, register, create_account, resolve_referrer, record_referral, is_first_admin,
  same_ip_count, new_user,
}
use testmellow.Auth.Login.{LoginInput, login, record_login, is_new_device, announce_login, reject}

module _ {Q : Db → Type 0} where
  get_by_username-Keeps : (n : ℕ) → Keeps Q (get_by_username n)
  unfolding get_by_username
  get_by_username-Keeps n = search keeps_rules

  get_by_referral_code-Keeps : (n : ℕ) → Keeps Q (get_by_referral_code n)
  unfolding get_by_referral_code
  get_by_referral_code-Keeps n = search keeps_rules

  count_users_from_ip-Keeps : (ip id : ℕ) → Keeps Q (count_users_from_ip ip id)
  unfolding count_users_from_ip
  count_users_from_ip-Keeps ip id = search keeps_rules

  count_users_from_fingerprint-Keeps : (fp id : ℕ) → Keeps Q (count_users_from_fingerprint fp id)
  unfolding count_users_from_fingerprint
  count_users_from_fingerprint-Keeps fp id = search keeps_rules

  count_admins-Keeps : Keeps Q count_admins
  unfolding count_admins
  count_admins-Keeps = search keeps_rules

  has_seen_user_agent-Keeps : (id a : ℕ) → Keeps Q (has_seen_user_agent id a)
  unfolding has_seen_user_agent
  has_seen_user_agent-Keeps id a = search keeps_rules

solvent-insert :
    (id : ℕ) (u : User) (d : Db) (j : ℕ)
    → u.yad_balance ≡ pos 0
    → pos 0 ≤ℤ balance_of j d
    → pos 0 ≤ℤ balance_of j (record d { users = (id, u) ∷ d.users })
solvent-insert id u d j z h = elim (Bool-cases (id == j)) [
  | inl p ↦ rw (find-cons id j u d.users, p, z) (omega int_laws)
  | inr n ↦ rw (find-cons id j u d.users, n) h
]

insert_user-IsBalanced :
    (id : ℕ) (u : User) (d : Db)
    → u.yad_balance ≡ pos 0
    → find id d.users ≡ none
    → IsBalanced d
    → IsBalanced (record d { users = (id, u) ∷ d.users })
insert_user-IsBalanced id u d z e b = record {
  backed = λ j. ground (arith, b.backed j, b.backed id, find-cons id j u d.users);
  solvent = λ j. solvent-insert id u d j z (b.solvent j);
}

create_user-IsBalanced :
    (id : ℕ) (u : User) → u.yad_balance ≡ pos 0 → Keeps IsBalanced (create_user id u)
unfolding create_user ◌>>=◌ query modify_db fail_if
create_user-IsBalanced id u z = record { at = λ w b. step w (find id w.db.users) refl b }
  where
    step :
        (w : World) (o : Option User)
        → find id w.db.users ≡ o
        → IsBalanced w.db
        → IsBalanced (create_user id u w).1.db
    step w none e b = ground (arith, insert_user-IsBalanced id u w.db z e b)
    step w (some v) e b = ground arith

create_referral-IsBalanced : (id : ℕ) (r : Referral) → Keeps IsBalanced (create_referral id r)
unfolding create_referral
create_referral-IsBalanced id r = search (keeps_rules, same-IsBalanced) depth 12

update_last_known_ip-IsBalanced : (id ip : ℕ) → Keeps IsBalanced (update_last_known_ip id ip)
unfolding update_last_known_ip
update_last_known_ip-IsBalanced id ip = search (keeps_rules, map_user-IsBalanced) depth 12

create_account_activity-IsBalanced : (l : Login) → Keeps IsBalanced (create_account_activity l)
unfolding create_account_activity
create_account_activity-IsBalanced l = search (keeps_rules, same-IsBalanced) depth 12

ruleset account_rules = (
  keeps_rules, get_by_username-Keeps, get_by_referral_code-Keeps, count_users_from_ip-Keeps,
  count_users_from_fingerprint-Keeps, count_admins-Keeps, has_seen_user_agent-Keeps,
  check_rate_limit-Keeps, check_daily_referral_limit-Keeps, check_login_rate_limit-Keeps,
  record_failed_login-Keeps, reset_login_attempts-Keeps, create_referral-IsBalanced,
  update_last_known_ip-IsBalanced, create_account_activity-IsBalanced,
)

-- No referral changes the balance of the new account.
abbrev HasNoYad : User → Type 0
HasNoYad u = u.yad_balance ≡ pos 0

resolve_referrer-HasNoYad :
    (i : RegisterInput) (id : ℕ) (u : User) → HasNoYad u → Gives HasNoYad (resolve_referrer i id u)
unfolding resolve_referrer
resolve_referrer-HasNoYad i id u z = search gives_rules depth 20

resolve_referrer-IsBalanced :
    (i : RegisterInput) (id : ℕ) (u : User) → Keeps IsBalanced (resolve_referrer i id u)
unfolding resolve_referrer
resolve_referrer-IsBalanced i id u = search account_rules depth 20

record_referral-IsBalanced : (id r : ℕ) → Keeps IsBalanced (record_referral id r)
unfolding record_referral
record_referral-IsBalanced id r = search account_rules depth 12

is_first_admin-IsBalanced : (t : ℕ) (i : RegisterInput) → Keeps IsBalanced (is_first_admin t i)
unfolding is_first_admin
is_first_admin-IsBalanced t i = search account_rules depth 12

same_ip_count-IsBalanced : (i : RegisterInput) (id : ℕ) → Keeps IsBalanced (same_ip_count i id)
unfolding same_ip_count
same_ip_count-IsBalanced i id = search account_rules depth 12

module _ (hash : ℕ → Option ℕ) (token : ℕ) where
  create_account-IsBalanced :
      (i : RegisterInput) (id a b : ℕ) → Keeps IsBalanced (create_account hash token i id a b)
  unfolding create_account new_user
  create_account-IsBalanced i id a b = Keeps-on_option _ _ _ (Keeps-raise _) (λ h.
      Keeps-bind _ _ Keeps-remote (λ code.
        Keeps-bind _ _ (is_first_admin-IsBalanced token i) (λ admin.
          Keeps-bind_Gives _ _ (resolve_referrer-HasNoYad i id _ refl)
            (resolve_referrer-IsBalanced i id _)
            (λ u z.
              Keeps-bind _ _ (create_user-IsBalanced id u z)
                (λ _. search (account_rules, record_referral-IsBalanced))))))

  pub register-IsBalanced : (i : RegisterInput) → Keeps IsBalanced (register hash token i)
  unfolding register
  register-IsBalanced i =
      search (account_rules, same_ip_count-IsBalanced, create_account-IsBalanced) depth 20

is_new_device-IsBalanced : (i : LoginInput) (id : ℕ) → Keeps IsBalanced (is_new_device i id)
unfolding is_new_device
is_new_device-IsBalanced i id = search account_rules depth 12

announce_login-IsBalanced :
    (i : LoginInput) (u : User) (b : Bool) → Keeps IsBalanced (announce_login i u b)
unfolding announce_login
announce_login-IsBalanced i u b = search account_rules depth 12

record_login-IsBalanced :
    (i : LoginInput) (id : ℕ) (u : User) → Keeps IsBalanced (record_login i id u)
unfolding record_login
record_login-IsBalanced i id u =
    search (account_rules, is_new_device-IsBalanced, announce_login-IsBalanced) depth 20

reject-IsBalanced : (i : LoginInput) → Keeps IsBalanced (reject i)
unfolding reject
reject-IsBalanced i = search account_rules

pub login-IsBalanced :
    (compare : ℕ → ℕ → Bool) (i : LoginInput) → Keeps IsBalanced (login compare i)
unfolding login
login-IsBalanced compare i =
    search (account_rules, record_login-IsBalanced, reject-IsBalanced) depth 20
