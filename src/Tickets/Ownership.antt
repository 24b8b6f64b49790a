-- ===== src/Tickets/Ownership.antt =====
-- The messages of a ticket are those of its owner and of administrators.
use testmellow.Prelude.{
  ℕ, ◌≡◌, sym, subst, Bool, true, false, ◌&&◌, not, some, ◌∷◌, arith, Option-cases, inl, inr, ◌==◌,
  find, find-cons,
}
use testmellow.Domain.{TicketStatus}
use testmellow.World.Rows.{Db, Ticket, TicketMessage}
use testmellow.World.Exec.{
  Result_cases, ok, World, pure, raise, attempt, ◌>>=◌, on_option, on_result, remote, query,
  modify_db,
}
use testmellow.World.Keeps.{Keeps, keeps_rules, Keeps-bind, Keeps-on_option}
use testmellow.World.Atomic.{IsAtomic-transaction}
use testmellow.World.Gives.{Keeps-bind_read, Keeps-guard}
use testmellow.Repo.Tickets.{
  ticket_refused, count_open_tickets, create_ticket, get_ticket_by_id, add_ticket_message,
  update_ticket_status,
}
use testmellow.Repo.Merge.{merge_statements, merge_users}
use testmellow.Repo.Merge.Statements.{reassign}
use testmellow.Repo.Merge.Deletion.{referral_clean_up, deletion}
use testmellow.Repo.Merge.Runs.{Merged, merged, body}
use testmellow.Repo.Users.{get_by_id}
use testmellow.Admin.{audit}
use testmellow.Tickets.{
  message_of, new_ticket, ticket_or_404, create, reply, notify_owner, reply_to_ticket, close_ticket,
}
use testmellow.Tickets.Owners.{IsOwned, cons-IsOwned, status-IsOwned, moved-IsOwned}

-- The ticket under an id, as the code has read it.
abbrev HasTicket : ℕ → Ticket → Db → Type 0
HasTicket id t d = find id d.tickets ≡ some t

ticket_or_404-reads :
    (id : ℕ) (w : World) (t : Ticket)
    → (ticket_or_404 id w).0 ≡ ok t
    → HasTicket id t (ticket_or_404 id w).1.db
unfolding ticket_or_404 get_ticket_by_id query attempt ◌>>=◌ on_result on_option raise pure remote
ticket_or_404-reads id w t h = elim (Result_cases (remote w).0) [
  | inl (n, r) ↦ elim (Option-cases (find id w.db.tickets)) [
    | inl e ↦ absurd (ground (arith, h, r, e))
    | inr (u, e) ↦ ground (arith, h, r, e)
  ]
  | inr (e, r) ↦ absurd (ground (arith, h, r))
]

pub ticket_or_404-Keeps : {Q : Db → Type 0} (id : ℕ) → Keeps Q (ticket_or_404 id)
unfolding ticket_or_404 get_ticket_by_id
ticket_or_404-Keeps id = search keeps_rules depth 12

-- A message of the owner or of an administrator.
add-IsOwned :
    (m : TicketMessage) (t : Ticket) (d : Db)
    → (not m.is_admin && not (t.user_id == m.sender_id)) ≡ false
    → IsOwned d × HasTicket m.ticket_id t d
    → IsOwned (record d { ticket_messages = m ∷ d.ticket_messages })
      × HasTicket m.ticket_id t (record d { ticket_messages = m ∷ d.ticket_messages })
add-IsOwned m t d g (o, h) = (ground (arith, g, o, h), h)

add_ticket_message-IsOwned :
    (m : TicketMessage) (t : Ticket)
    → (not m.is_admin && not (t.user_id == m.sender_id)) ≡ false
    → Keeps (λ d. IsOwned d × HasTicket m.ticket_id t d) (add_ticket_message m)
unfolding add_ticket_message
add_ticket_message-IsOwned m t g = search (keeps_rules, add-IsOwned) depth 12

admin_added :
    (admin id text : ℕ) (d : Db)
    → IsOwned d
    → IsOwned (record d { ticket_messages = message_of id admin true text ∷ d.ticket_messages })
admin_added admin id text d o = ground (arith, o)

admin_message-IsOwned :
    (admin id text : ℕ) → Keeps IsOwned (add_ticket_message (message_of id admin true text))
unfolding add_ticket_message
admin_message-IsOwned admin id text = search (keeps_rules, admin_added) depth 12

update_ticket_status-IsOwned :
    (id : ℕ) (s : TicketStatus) → Keeps IsOwned (update_ticket_status id s)
unfolding update_ticket_status
update_ticket_status-IsOwned id s = search (keeps_rules, status-IsOwned) depth 12

pub notify_owner-Keeps : {Q : Db → Type 0} (id : ℕ) → Keeps Q (notify_owner id)
unfolding notify_owner get_by_id
notify_owner-Keeps id = search keeps_rules depth 16

pub audit-Keeps : {Q : Db → Type 0} → Keeps Q audit
unfolding audit
audit-Keeps = search keeps_rules

pub ruleset ticket_rules = (keeps_rules, ticket_or_404-Keeps, notify_owner-Keeps, audit-Keeps)

pub reply-IsOwned : (user : ℕ) (v : Bool) (id text : ℕ) → Keeps IsOwned (reply user v id text)
unfolding reply
reply-IsOwned user v id text = Keeps-guard _ _ _ λ _.
    Keeps-bind_read _ _ (ticket_or_404-reads id) (ticket_or_404-Keeps id) λ t.
      Keeps-guard _ _ _ λ p.
        Keeps-guard _ _ _
          λ _. add_ticket_message-IsOwned (message_of id user false text) t (ground (arith, p))

pub reply_to_ticket-IsOwned :
    (admin : ℕ) (v : Bool) (id text : ℕ) → Keeps IsOwned (reply_to_ticket admin v id text)
unfolding reply_to_ticket
reply_to_ticket-IsOwned admin v id text = Keeps-guard _ _ _ λ _.
    Keeps-bind _ _ (ticket_or_404-Keeps id) λ t.
      Keeps-bind _ _ (admin_message-IsOwned admin id text)
        λ _. search (ticket_rules, update_ticket_status-IsOwned) depth 12

pub close_ticket-IsOwned : (v : Bool) (id : ℕ) → Keeps IsOwned (close_ticket v id)
unfolding close_ticket
close_ticket-IsOwned v id = search (ticket_rules, update_ticket_status-IsOwned) depth 12

create_ticket-reads :
    (id : ℕ) (t : Ticket) (w : World) (u : Unit {0})
    → (create_ticket id t w).0 ≡ ok u
    → HasTicket id t (create_ticket id t w).1.db
unfolding create_ticket query ◌>>=◌ on_option raise remote modify_db
create_ticket-reads id t w u h = elim (Result_cases (remote w).0) [
  | inl (n, r) ↦ elim (Option-cases (ticket_refused id t w.db)) [
    | inl e ↦ ground (arith, h, r, e, find-cons id id t w.db.tickets)
    | inr (x, e) ↦ absurd (ground (arith, h, r, e))
  ]
  | inr (e, r) ↦ absurd (ground (arith, h, r))
]

create_ticket-IsOwned : (id : ℕ) (t : Ticket) → Keeps IsOwned (create_ticket id t)
unfolding create_ticket query ◌>>=◌ on_option raise remote modify_db
create_ticket-IsOwned id t = record {
  at = λ w o. elim (Result_cases (remote w).0) [
    | inl (n, r) ↦ elim (Option-cases (find id w.db.tickets)) [
      | inl e ↦ elim (Option-cases (ticket_refused id t w.db)) [
        | inl f ↦ ground (arith, r, f, cons-IsOwned id t w.db.tickets w.db.ticket_messages e o)
        | inr (x, f) ↦ ground (arith, r, f, o)
      ]
      | inr (x, e) ↦ ground (arith, r, e, o)
    ]
    | inr (e, r) ↦ ground (arith, r, o)
  ];
}

pub create-IsOwned : (user : ℕ) (v : Bool) (s text : ℕ) → Keeps IsOwned (create user v s text)
unfolding create count_open_tickets
create-IsOwned user v s text = Keeps-guard _ _ _ λ _. Keeps-bind _ _ (search keeps_rules) λ n.
    Keeps-guard _ _ _ λ _. Keeps-bind _ _ (search keeps_rules) λ id.
      Keeps-bind_read _ _ (create_ticket-reads id (new_ticket user s))
        (create_ticket-IsOwned id (new_ticket user s))
        λ _.
          Keeps-bind _ _
            (add_ticket_message-IsOwned (message_of id user false text) (new_ticket user s)
              (ground arith))
            λ _. search keeps_rules

merge-IsOwned : (src dst : ℕ) (d e : Db) → Merged src dst d e → IsOwned d → IsOwned e
unfolding merge_statements reassign referral_clean_up deletion
merge-IsOwned src dst d e m o =
    subst IsOwned (sym m.result) (moved-IsOwned src dst d.tickets d.ticket_messages o)

pub merge_users-IsOwned : (src dst : ℕ) → Keeps IsOwned (merge_users src dst)
unfolding merge_users
merge_users-IsOwned src dst = record {
  at = λ w o. elim (Result_cases (merge_users src dst w).0) [
    | inl (u, h) ↦ merge-IsOwned src dst w.db _ (merged src dst w h) o
    | inr (e, h) ↦ subst IsOwned (sym ((IsAtomic-transaction (body src dst)).at w e h)) o
  ];
}
