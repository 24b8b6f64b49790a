-- ===== src/Repo/Merge/Succeeds.antt =====
-- No foreign key refuses a merge, since its statements cover every reference to the source.
use testmellow.Prelude.{
  ℕ, ◌≡◌, ◌≢◌, refl, Bool, true, false, ◌||◌, none, some, List, [], ◌∷◌, ◌++◌, arith, ◌==◌, find,
  find-update, exists, any_row, is_some, Table, update_where, remove_where, map_where,
}
use testmellow.World.Rows.{Db, User, Referral, ReferralReward}
use testmellow.World.Exec.{
  Error, ok, World, transaction, atomically, ◌>>=◌, query, remote, on_option, pure,
}
use testmellow.Repo.Merge.{account_moved, merge_statements, merge_users, overflows, with_account}
use testmellow.Repo.Merge.Statements.{
  Statement, dangling, reassign, pending_clash, both_expanded, refuse,
}
use testmellow.Repo.Merge.Deletion.{referral_clean_up, deletion, references, is_selected, new_use}
use testmellow.Repo.Merge.Runs.{apply_all, AllClear, for_each-calm}
use testmellow.Repo.Merge.Rows.{
  exists-map_where, exists-drop_where, any-update_where, any-remove_where, any-remove_other, any-or,
  referring-moved,
}

dangling-none :
    (dst : ℕ) (moved : Bool) (d : Db)
    → is_some (find dst d.users) ≡ true
    → dangling dst moved d ≡ none
dangling-none dst moved d h = ground (arith, h)

AllClear-append :
    (xs ys : List Statement) (d : Db)
    → AllClear xs d
    → AllClear ys (apply_all xs d)
    → AllClear (xs ++ ys) d
AllClear-append [] ys d c e = e
AllClear-append (x ∷ xs) ys d (c, cs) e = (c, AllClear-append xs ys (x.change d) cs e)

-- The rewards go before the referrals that they belong to.
abbrev has_parent : (Referral → Bool) → Table Referral → ReferralReward → Bool
has_parent p referrals r = is_selected p (find r.referral_id referrals)

cleaned-clear :
    (p : Referral → Bool) (referrals : Table Referral) (rewards : Table ReferralReward)
    → refuse
        (any_row (has_parent p referrals) (remove_where (has_parent p referrals) rewards))
        Error.foreign_key_violation
      ≡ none
cleaned-clear p referrals rewards =
    ground (arith, any-remove_where (has_parent p referrals) rewards)

-- A conjunction of many parts.
infixr 4 ◌▹◌
abbrev ◌▹◌ : {A B : Type 0} → A → B → A × B
a ▹ b = (a, b)

module _ (src dst : ℕ) where
  abbrev HasTarget : Db → Type 0
  HasTarget d = is_some (find dst d.users) ≡ true

  reassign-clear :
      (d : Db)
      → HasTarget d
      → pending_clash src dst d ≡ false
      → both_expanded src dst d ≡ false
      → AllClear (reassign src dst) d
  unfolding reassign
  reassign-clear d h p e =
      dangling-none dst _ d h
      ▹ ground (arith, p, h)
      ▹ dangling-none dst _ d h
      ▹ dangling-none dst _ d h
      ▹ dangling-none dst _ d h
      ▹ dangling-none dst _ d h
      ▹ refl
      ▹ ground (arith, e, h)
      ▹ dangling-none dst _ d h
      ▹ refl
      ▹ refl
      ▹ refl
      ▹ refl
      ▹ tt

  referral_clean_up-clear : (d : Db) → HasTarget d → AllClear (referral_clean_up src dst) d
  unfolding referral_clean_up
  referral_clean_up-clear d h =
      dangling-none dst _ d h
      ▹ dangling-none dst _ d h
      ▹ refl
      ▹ cleaned-clear _ _ _
      ▹ refl
      ▹ cleaned-clear _ _ _
      ▹ refl
      ▹ cleaned-clear _ _ _
      ▹ tt

  deletion-clear :
      (d : Db)
      → src ≢ dst
      → HasTarget d
      → any_row (λ s. s.user_id == src) d.subscriptions ≡ false
      → any_row (λ p. p.user_id == src) d.payments ≡ false
      → exists (λ t. t.user_id == src) d.yad_transactions ≡ false
      → any_row (λ t. t.user_id == src) d.tickets ≡ false
      → exists (λ m. m.sender_id == src) d.ticket_messages ≡ false
      → any_row (λ o. o.user_id == src) d.shop_orders ≡ false
      → any_row (λ r. r.referrer_id == src) d.referral_rewards ≡ false
      → any_row (λ r. (r.referrer_id == src) || (r.referee_id == src)) d.referrals ≡ false
      → AllClear (deletion src dst) d
  unfolding deletion references
  deletion-clear d ne h a b c i j e f g =
      let uses =
        map_where (new_use src dst d.promocode_uses) (λ u. record u { user_id = dst })
          d.promocode_uses in
      dangling-none dst _ d h
      ▹ refl
      ▹ dangling-none dst _ d h
      ▹ refl
      ▹ refl
      ▹ ground (
        arith,
        a,
        b,
        c,
        i,
        j,
        e,
        f,
        g,
        exists-drop_where (λ u. u.user_id == src) uses,
        referring-moved src dst (λ u. record u { telegram_id = none }) d.users ne (λ u. refl),
      )
      ▹ tt

  rewards-clean :
      (p q r : ReferralReward → Bool) (t : Table ReferralReward)
      → src ≢ dst
      → any_row
          (λ x. x.referrer_id == src)
          (remove_where p (
            remove_where q (
              remove_where r (
                update_where (λ x. x.referrer_id == src) (λ x. record x { referrer_id = dst }) t))))
        ≡ false
  rewards-clean p q r t ne =
      let by : ReferralReward → Bool = λ x. x.referrer_id == src in
      any-remove_other by p _ (
        any-remove_other by q _ (
          any-remove_other by r _ (
            any-update_where by (λ x. record x { referrer_id = dst }) t (λ x. ground (arith, ne)))))

  referrals-clean :
      (t : Table Referral) (r : Referral → Bool)
      → any_row
          (λ x. (x.referrer_id == src) || (x.referee_id == src))
          (remove_where r
            (remove_where (λ x. x.referrer_id == src) (remove_where (λ x. x.referee_id == src) t)))
        ≡ false
  referrals-clean t r =
      let p : Referral → Bool = λ x. x.referrer_id == src in
      let q : Referral → Bool = λ x. x.referee_id == src in
      let t1 = remove_where q t in
      ground (
        arith,
        any-or p q (remove_where r (remove_where p t1)),
        any-remove_other p r (remove_where p t1) (any-remove_where p t1),
        any-remove_other q r (remove_where p t1) (any-remove_other q p t1 (any-remove_where q t)),
      )

  merge-clear :
      (d : Db) (u : User)
      → src ≢ dst
      → is_some (find dst d.users) ≡ true
      → overflows u (find dst d.users) ≡ false
      → pending_clash src dst d ≡ false
      → both_expanded src dst d ≡ false
      → AllClear (merge_statements src dst u) d
  unfolding merge_statements reassign referral_clean_up
  merge-clear d u ne h o p e =
      let d1 = (account_moved dst u).change d in
      let d2 = apply_all (reassign src dst) d1 in
      let d3 = apply_all (referral_clean_up src dst) d2 in
      let k : HasTarget d1 = ground (arith, h, find-update dst dst (with_account u) d.users) in
      let apart : (dst == src) ≡ false = ground (arith, ne) in
      (
        ground (arith, o),
        AllClear-append (reassign src dst) (referral_clean_up src dst ++ deletion src dst) d1
            (reassign-clear d1 k p e)
            (AllClear-append (referral_clean_up src dst) (deletion src dst) d2
              (referral_clean_up-clear d2 k)
              (deletion-clear d3 ne k
                (any-update_where (λ s. s.user_id == src) _ d.subscriptions (λ _. apart))
                (any-update_where (λ s. s.user_id == src) _ d.payments (λ _. apart))
                (exists-map_where (λ s. s.user_id == src) _ d.yad_transactions (λ _. apart))
                (any-update_where (λ t. t.user_id == src) _ d.tickets (λ _. apart))
                (exists-map_where (λ m. m.sender_id == src) _ d.ticket_messages (λ _. apart))
                (any-update_where (λ s. s.user_id == src) _ d.shop_orders (λ _. apart))
                (rewards-clean _ _ _ d.referral_rewards ne) (referrals-clean _ _))),
      )

-- MergeUsers succeeds when the calls of the database do: for two different users who exist, if
-- their balances and totals add up within a BIGINT, they do not both wait for a payment of the same
-- plan, and they do not both have a device expansion.
pub merge_users-ok :
    (src dst : ℕ) (u : User) (w : World)
    → src ≢ dst
    → find src w.db.users ≡ some u
    → is_some (find dst w.db.users) ≡ true
    → overflows u (find dst w.db.users) ≡ false
    → pending_clash src dst w.db ≡ false
    → both_expanded src dst w.db ≡ false
    → (merge_users src dst (record w { outcomes = [] })).0 ≡ ok tt
unfolding merge_users transaction atomically ◌>>=◌ query remote on_option pure
merge_users-ok src dst u w ne f h o p e =
    let c = merge-clear src dst w.db u ne h o p e in
    ground (arith, f, for_each-calm (merge_statements src dst u) w c)
