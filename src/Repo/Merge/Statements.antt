-- ===== src/Repo/Merge/Statements.antt =====
-- user_repo.go, `MergeUsers`: its statements after the source row is read.
use testmellow.Prelude.{
  ℕ, Bool, ◌&&◌, ◌||◌, not, Option, none, some, List, [], ◌∷◌, ◌==◌, if◌then◌else◌, is_some, exists,
  any_row, find, remove, update_where, map_where, Table,
}
use testmellow.Domain.{plan_eq}
use testmellow.World.Rows.{Db, Payment, DeviceExpansion}
use testmellow.World.Exec.{Error}
use testmellow.Repo.Payments.{is_pending}

-- The constraint that it violates, on the rows before it, and what it does otherwise.
pub record Statement : Type 0 where
  pub refused : Db → Option Error
  pub change : Db → Db

abbrev pub refuse : Bool → Error → Option Error
refuse b e = if b then some e else none

-- Rows that come to refer to a user who does not exist.
abbrev pub dangling : ℕ → Bool → Db → Option Error
dangling dst moved d =
    refuse (moved && not (is_some (find dst d.users))) Error.foreign_key_violation

-- On a table with no rows in the model.
abbrev elsewhere : Statement
elsewhere = record { refused = λ d. none; change = λ d. d }

-- Both users wait for a payment of the same plan: the index `payments_pending_user_plan_uq`.
abbrev pub same_pending : ℕ → Payment → Payment → Bool
same_pending dst p q = is_pending q && (q.user_id == dst) && plan_eq p.plan q.plan

abbrev pub pending_clash : (src dst : ℕ) → Db → Bool
pending_clash src dst d =
    any_row (λ p. (p.user_id == src) && is_pending p && any_row (same_pending dst p) d.payments)
      d.payments

-- Both users have a row of `device_expansions`, whose `user_id` is unique.
abbrev pub both_expanded : (src dst : ℕ) → Db → Bool
both_expanded src dst d =
    is_some (find src d.device_expansions) && is_some (find dst d.device_expansions)

abbrev moved_expansion :
    (src dst : ℕ) → Option DeviceExpansion → Table DeviceExpansion → Table DeviceExpansion
moved_expansion src dst none t = t
moved_expansion src dst (some e) t = (dst, e) ∷ remove src t

abbrev pub first_of : Option Error → Option Error → Option Error
first_of none e = e
first_of (some x) e = some x

module _ (src dst : ℕ) where
  -- 3.
  abbrev subscriptions_moved : Statement
  subscriptions_moved = record {
    refused = λ d. dangling dst (any_row (λ s. s.user_id == src) d.subscriptions) d;
    change = λ d. record d {
      subscriptions =
          update_where (λ s. s.user_id == src) (λ s. record s { user_id = dst }) d.subscriptions;
    };
  }

  abbrev pub payments_moved : Statement
  payments_moved = record {
    refused = λ d.
        first_of (refuse (pending_clash src dst d) Error.unique_violation)
          (dangling dst (any_row (λ p. p.user_id == src) d.payments) d);
    change = λ d. record d {
      payments = update_where (λ p. p.user_id == src) (λ p. record p { user_id = dst }) d.payments;
    };
  }

  abbrev transactions_moved : Statement
  transactions_moved = record {
    refused = λ d. dangling dst (exists (λ t. t.user_id == src) d.yad_transactions) d;
    change = λ d. record d {
      yad_transactions =
          map_where (λ t. t.user_id == src) (λ t. record t { user_id = dst }) d.yad_transactions;
    };
  }

  abbrev tickets_moved : Statement
  tickets_moved = record {
    refused = λ d. dangling dst (any_row (λ t. t.user_id == src) d.tickets) d;
    change = λ d. record d {
      tickets = update_where (λ t. t.user_id == src) (λ t. record t { user_id = dst }) d.tickets;
    };
  }

  abbrev messages_moved : Statement
  messages_moved = record {
    refused = λ d. dangling dst (exists (λ m. m.sender_id == src) d.ticket_messages) d;
    change = λ d. record d {
      ticket_messages =
          map_where (λ m. m.sender_id == src) (λ m. record m { sender_id = dst }) d.ticket_messages;
    };
  }

  abbrev orders_moved : Statement
  orders_moved = record {
    refused = λ d. dangling dst (any_row (λ o. o.user_id == src) d.shop_orders) d;
    change = λ d. record d {
      shop_orders =
          update_where (λ o. o.user_id == src) (λ o. record o { user_id = dst }) d.shop_orders;
    };
  }

  abbrev pub expansions_moved : Statement
  expansions_moved = record {
    refused = λ d.
        first_of (refuse (both_expanded src dst d) Error.unique_violation)
          (dangling dst (is_some (find src d.device_expansions)) d);
    change = λ d. record d {
      device_expansions =
          moved_expansion src dst (find src d.device_expansions) d.device_expansions;
    };
  }

  -- The logins and the other events.
  abbrev activity_moved : Statement
  activity_moved = record {
    refused = λ d.
        dangling dst
          (exists (λ l. l.user_id == src) d.logins || exists (λ a. a.user_id == src) d.activities)
          d;
    change = λ d. record d {
      logins = map_where (λ l. l.user_id == src) (λ l. record l { user_id = dst }) d.logins;
      activities = map_where (λ a. a.user_id == src) (λ a. record a { user_id = dst }) d.activities;
    };
  }

  -- The thirteen tables of the loop, in its order.
  unfoldable pub reassign : List Statement
  reassign =
      subscriptions_moved ∷ payments_moved ∷ transactions_moved ∷ tickets_moved ∷ messages_moved
      ∷ orders_moved ∷ elsewhere ∷ expansions_moved ∷ activity_moved ∷ elsewhere ∷ elsewhere
      ∷ elsewhere ∷ elsewhere ∷ []
