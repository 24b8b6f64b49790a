-- ===== src/Tests/Tickets.antt =====
-- A user opens a ticket, an administrator answers it, and the user reads both messages.
use testmellow.Prelude.{
  ◌≡◌, refl, true, false, some, List, [], ◌∷◌, find, exists, rows_where, update,
}
use testmellow.Domain.{TicketStatus}
use testmellow.World.Rows.{Ticket, TicketMessage}
use testmellow.World.Exec.{
  World, ok, ◌>>=◌, on_option, on_result, fail_if, attempt, ignore, new_id, remote, query, execute,
  modify_db, enqueue, raise, pure,
}
use testmellow.Repo.Users.{get_by_id}
use testmellow.Repo.Tickets.{
  messages_of, count_open_tickets, create_ticket, get_ticket_by_id, add_ticket_message,
  get_ticket_messages, update_ticket_status,
}
use testmellow.Admin.{audit}
use testmellow.Tickets.{
  message_of, ticket_or_404, create, get_with_messages, notify_owner, reply_to_ticket,
}
use testmellow.Tickets.Private.{Step, History, of_another, get_with_messages-private}
use testmellow.Tests.Worlds.{sunny}

abbrev opened_world : World
opened_world = (create 1 true 7 8 sunny).1

abbrev answered_world : World
answered_world = (reply_to_ticket 1 true 100 9 opened_world).1

abbrev history : History sunny answered_world
history =
    History.then_ (History.then_ History.start (Step.created 1 true 7 8 sunny))
      (Step.answered 1 true 100 9 opened_world)

abbrev answered_ticket : Ticket
answered_ticket = record { user_id = 1; subject = 7; status = TicketStatus.answered }

abbrev both_messages : List TicketMessage
both_messages = message_of 100 1 false 8 ∷ message_of 100 1 true 9 ∷ []

reads : (get_with_messages 1 true 100 answered_world).0 ≡ ok (answered_ticket, both_messages)
unfolding create count_open_tickets create_ticket add_ticket_message get_with_messages
    get_ticket_by_id get_ticket_messages update_ticket_status reply_to_ticket ticket_or_404
    notify_owner audit get_by_id ◌>>=◌ on_option on_result fail_if ignore attempt new_id remote
    query execute modify_db enqueue raise pure find rows_where update
reads = refl

get_with_messages-private_example :
    (find 100 answered_world.db.tickets ≡ some answered_ticket)
    × (answered_ticket.user_id ≡ 1)
    × (both_messages ≡ messages_of 100 answered_world.db.ticket_messages)
    × (exists (of_another 1) both_messages ≡ false)
get_with_messages-private_example =
    get_with_messages-private sunny answered_world history 1 true 100 answered_ticket both_messages
      refl reads
