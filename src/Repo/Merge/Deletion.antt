-- ===== src/Repo/Merge/Deletion.antt =====
-- user_repo.go, `MergeUsers`: the statements on referrals and promo codes, and the deletion of the
-- source.
use testmellow.Prelude.{
  ℕ, Bool, ◌&&◌, ◌||◌, not, Option, none, some, List, [], ◌∷◌, ◌==◌, if◌then◌else◌, exists, any_row,
  find, remove, update_where, update_others, remove_where, map_where, drop_where, is_some,
}
use testmellow.World.Rows.{Db, Referral, PromoCodeUse, User}
use testmellow.World.Exec.{Error}
use testmellow.Repo.Users.{map_user}
use testmellow.Repo.Accounts.{equals}
use testmellow.Repo.Merge.Statements.{refuse, dangling, Statement}

module _ (src dst : ℕ) where
  -- 4.
  abbrev rewards_moved : Statement
  rewards_moved = record {
    refused = λ d. dangling dst (any_row (λ r. r.referrer_id == src) d.referral_rewards) d;
    change = λ d. record d {
      referral_rewards =
          update_where (λ r. r.referrer_id == src) (λ r. record r { referrer_id = dst })
            d.referral_rewards;
    };
  }

  -- 5.
  abbrev pub other_referee : Referral → Bool
  other_referee r = (r.referrer_id == src) && not (r.referee_id == dst)

  abbrev referrals_moved : Statement
  referrals_moved = record {
    refused = λ d. dangling dst (any_row other_referee d.referrals) d;
    change = λ d. record d {
      referrals = update_where other_referee (λ r. record r { referrer_id = dst }) d.referrals;
    };
  }

-- `DELETE FROM referral_rewards WHERE referral_id IN (SELECT id FROM referrals WHERE p)`
abbrev pub is_selected : (Referral → Bool) → Option Referral → Bool
is_selected p none = Bool.false
is_selected p (some r) = p r

abbrev pub rewards_cleaned : (Referral → Bool) → Statement
rewards_cleaned p = record {
  refused = λ d. none;
  change = λ d. record d {
    referral_rewards =
        remove_where (λ r. is_selected p (find r.referral_id d.referrals)) d.referral_rewards;
  };
}

-- `DELETE FROM referrals WHERE p`; the rewards of these rows are gone by then.
abbrev pub referrals_cleaned : (Referral → Bool) → Statement
referrals_cleaned p = record {
  refused = λ d.
      refuse (any_row (λ r. is_selected p (find r.referral_id d.referrals)) d.referral_rewards)
        Error.foreign_key_violation;
  change = λ d. record d { referrals = remove_where p d.referrals };
}

module _ (src : ℕ) where
  abbrev pub without_referrer : User → User
  without_referrer u = record u {
    referrer_id = if equals u.referrer_id src then none else u.referrer_id;
  }

  -- A user whom the source referred.
  abbrev pub referring : ℕ × User → Bool
  referring (k, u) = equals u.referrer_id src && not (k == src)

  -- A row that keeps the source from being deleted: those of `device_expansions`, `user_logins` and
  -- `account_activity` do not, they go with the user.
  unfoldable pub references : Db → Bool
  references d =
      any_row (λ s. s.user_id == src) d.subscriptions
      || any_row (λ p. p.user_id == src) d.payments
      || exists (λ t. t.user_id == src) d.yad_transactions
      || any_row (λ t. t.user_id == src) d.tickets
      || exists (λ m. m.sender_id == src) d.ticket_messages
      || any_row (λ o. o.user_id == src) d.shop_orders
      || any_row (λ r. r.referrer_id == src) d.referral_rewards
      || any_row (λ r. (r.referrer_id == src) || (r.referee_id == src)) d.referrals
      || exists (λ u. u.user_id == src) d.promocode_uses
      || exists referring d.users

  -- A row of any table that names the source as its user.
  unfoldable pub is_mentioned : Db → Bool
  is_mentioned d =
      references d
      || is_some (find src d.device_expansions)
      || exists (λ l. l.user_id == src) d.logins
      || exists (λ a. a.user_id == src) d.activities

module _ (src dst : ℕ) where
  -- 4. to 8.
  unfoldable pub referral_clean_up : List Statement
  referral_clean_up =
      rewards_moved src dst
      ∷ referrals_moved src dst
      ∷ rewards_cleaned (λ r. r.referee_id == src)
      ∷ referrals_cleaned (λ r. r.referee_id == src)
      ∷ rewards_cleaned (λ r. r.referrer_id == src)
      ∷ referrals_cleaned (λ r. r.referrer_id == src)
      ∷ rewards_cleaned (λ r. (r.referrer_id == dst) && (r.referee_id == dst))
      ∷ referrals_cleaned (λ r. (r.referrer_id == dst) && (r.referee_id == dst))
      ∷ []

  -- 9. A use that the destination has too stays behind, and is deleted.
  abbrev pub new_use : List PromoCodeUse → PromoCodeUse → Bool
  new_use uses u =
      (u.user_id == src)
      && not (exists (λ v. (v.user_id == dst) && (v.promo_code_id == u.promo_code_id)) uses)

  abbrev uses_moved : Statement
  uses_moved = record {
    refused = λ d. dangling dst (exists (new_use d.promocode_uses) d.promocode_uses) d;
    change = λ d. record d {
      promocode_uses =
          map_where (new_use d.promocode_uses) (λ u. record u { user_id = dst }) d.promocode_uses;
    };
  }

  abbrev uses_cleaned : Statement
  uses_cleaned = record {
    refused = λ d. none;
    change = λ d. record d { promocode_uses = drop_where (λ u. u.user_id == src) d.promocode_uses };
  }

  -- 10.
  abbrev referred : ℕ × User → Bool
  referred (k, u) = equals u.referrer_id src && not (k == dst)

  abbrev referrers_moved : Statement
  referrers_moved = record {
    refused = λ d. dangling dst (exists referred d.users) d;
    change = λ d. record d {
      users =
          update_others dst (λ u. equals u.referrer_id src)
            (λ u. record u { referrer_id = some dst }) d.users;
    };
  }

  abbrev referrer_cleared : Statement
  referrer_cleared = record { refused = λ d. none; change = map_user dst (without_referrer src) }

  -- 11.
  abbrev telegram_cleared : Statement
  telegram_cleared = record {
    refused = λ d. none;
    change = map_user src (λ u. record u { telegram_id = none });
  }

  -- 12. The rows of `device_expansions` and `account_activity` go with the user.
  abbrev pub source_deleted : Statement
  source_deleted = record {
    refused = λ d. refuse (references src d) Error.foreign_key_violation;
    change = λ d. record d {
      users = remove src d.users;
      device_expansions = remove src d.device_expansions;
      logins = drop_where (λ l. l.user_id == src) d.logins;
      activities = drop_where (λ a. a.user_id == src) d.activities;
    };
  }

  -- 9. to 12.
  unfoldable pub deletion : List Statement
  deletion =
      uses_moved ∷ uses_cleaned ∷ referrers_moved ∷ referrer_cleared ∷ telegram_cleared
      ∷ source_deleted ∷ []
