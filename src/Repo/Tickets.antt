-- ===== src/Repo/Tickets.antt =====
-- user_repo.go: the statements on tickets and their messages.
use testmellow.Prelude.{
  ℕ, Bool, true, false, ◌&&◌, not, Option, none, some, List, [], ◌∷◌, ◌++◌, ◌==◌, if◌then◌else◌,
  find, update, length, is_some, rows_where,
}
use testmellow.Domain.{TicketStatus}
use testmellow.World.Rows.{Db, Ticket, TicketMessage}
use testmellow.World.Exec.{
  Error, Exec, ◌>>=◌, ◌>>◌, on_option, fail_if, raise, query, modify_db, execute,
}

-- `status IN ('open','answered')`
abbrev pub is_open : TicketStatus → Bool
is_open TicketStatus.closed = false
is_open s = true

abbrev pub open_ticket_of : ℕ → Ticket → Bool
open_ticket_of user_id t = (t.user_id == user_id) && is_open t.status

unfoldable pub count_open_tickets : ℕ → Exec ℕ
count_open_tickets user_id = query (λ d. length (rows_where (open_ticket_of user_id) d.tickets))

-- The primary key, and the owner as a foreign key.
abbrev pub ticket_refused : ℕ → Ticket → Db → Option Error
ticket_refused id t d =
    if is_some (find id d.tickets)
    then some Error.unique_violation
    else if is_some (find t.user_id d.users)
    then none
    else some Error.foreign_key_violation

-- `CreateTicket`
unfoldable pub create_ticket : ℕ → Ticket → Exec (Unit {0})
create_ticket id t = do
  refused ← query (ticket_refused id t)
  on_option refused (modify_db (λ d. record d { tickets = (id, t) ∷ d.tickets })) raise

unfoldable pub get_ticket_by_id : ℕ → Exec (Option Ticket)
get_ticket_by_id id = query (λ d. find id d.tickets)

-- `AddTicketMessage`: the ticket and the sender are foreign keys.
unfoldable pub add_ticket_message : TicketMessage → Exec (Unit {0})
add_ticket_message m = do
  known ← query (λ d. is_some (find m.ticket_id d.tickets) && is_some (find m.sender_id d.users))
  fail_if (not known) Error.foreign_key_violation
  modify_db (λ d. record d { ticket_messages = m ∷ d.ticket_messages })

-- `ORDER BY created_at ASC`: the newest message is the first of the table.
abbrev pub messages_of : ℕ → List TicketMessage → List TicketMessage
messages_of id [] = []
messages_of id (m ∷ ms) =
    let rest = messages_of id ms in if m.ticket_id == id then rest ++ (m ∷ []) else rest

-- `GetTicketMessages`
unfoldable pub get_ticket_messages : ℕ → Exec (List TicketMessage)
get_ticket_messages id = query (λ d. messages_of id d.ticket_messages)

unfoldable pub update_ticket_status : ℕ → TicketStatus → Exec (Unit {0})
update_ticket_status id status =
    execute (λ d. record d { tickets = update id (λ t. record t { status = status }) d.tickets })
