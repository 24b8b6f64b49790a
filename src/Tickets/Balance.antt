-- ===== src/Tickets/Balance.antt =====
-- Tickets do not touch the ledger.
use testmellow.Prelude.{ℕ, Bool}
use testmellow.World.Rows.{Ticket, TicketMessage}
use testmellow.World.Keeps.{keeps_rules, Keeps}
use testmellow.Domain.{TicketStatus}
use testmellow.Repo.Tickets.{
  count_open_tickets, create_ticket, add_ticket_message, update_ticket_status,
}
use testmellow.Ledger.{IsBalanced}
use testmellow.Ledger.Tables.{same-IsBalanced}
use testmellow.Tickets.{create, reply, reply_to_ticket, close_ticket}
use testmellow.Tickets.Ownership.{ticket_rules}

create_ticket-IsBalanced : (id : ℕ) (t : Ticket) → Keeps IsBalanced (create_ticket id t)
unfolding create_ticket
create_ticket-IsBalanced id t = search (keeps_rules, same-IsBalanced) depth 12

message-IsBalanced : (m : TicketMessage) → Keeps IsBalanced (add_ticket_message m)
unfolding add_ticket_message
message-IsBalanced m = search (keeps_rules, same-IsBalanced) depth 12

status-IsBalanced : (id : ℕ) (s : TicketStatus) → Keeps IsBalanced (update_ticket_status id s)
unfolding update_ticket_status
status-IsBalanced id s = search (keeps_rules, same-IsBalanced) depth 12

ruleset writes = (ticket_rules, create_ticket-IsBalanced, message-IsBalanced, status-IsBalanced)

pub create-IsBalanced : (user : ℕ) (v : Bool) (s text : ℕ) → Keeps IsBalanced (create user v s text)
unfolding create count_open_tickets
create-IsBalanced user v s text = search writes depth 16

pub reply-IsBalanced : (user : ℕ) (v : Bool) (id text : ℕ) → Keeps IsBalanced (reply user v id text)
unfolding reply
reply-IsBalanced user v id text = search writes depth 16

pub reply_to_ticket-IsBalanced :
    (admin : ℕ) (v : Bool) (id text : ℕ) → Keeps IsBalanced (reply_to_ticket admin v id text)
unfolding reply_to_ticket
reply_to_ticket-IsBalanced admin v id text = search writes depth 16

pub close_ticket-IsBalanced : (v : Bool) (id : ℕ) → Keeps IsBalanced (close_ticket v id)
unfolding close_ticket
close_ticket-IsBalanced v id = search writes depth 16
