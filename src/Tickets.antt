-- ===== src/Tickets.antt =====
-- internal/handler/http/handlers.go, TicketHandler; and the tickets of
-- internal/handler/admin/admin.go. An identifier that is no UUID and a body that the bindings refuse
-- are `valid = false`.
pub mod Owners
pub mod Ownership
pub mod Private
pub mod Balance
use testmellow.Prelude.{ℕ, Bool, true, false, not, List, ltb, ◌==◌}
use testmellow.Domain.{TicketStatus}
use testmellow.World.Rows.{Job, Ticket, TicketMessage}
use testmellow.World.Exec.{
  Error, Exec, pure, raise, attempt, ◌>>=◌, ◌>>◌, on_option, on_result, fail_if, new_id, ignore,
  enqueue,
}
use testmellow.Admin.{audit}
use testmellow.Repo.Users.{get_by_id}
use testmellow.Repo.Tickets.{
  is_open, count_open_tickets, create_ticket, get_ticket_by_id, add_ticket_message,
  get_ticket_messages, update_ticket_status,
}

-- `err != nil || ticket == nil`
unfoldable pub ticket_or_404 : ℕ → Exec Ticket
ticket_or_404 id = do
  row ← attempt (get_ticket_by_id id)
  on_result row (λ _. raise Error.ticket_not_found)
      λ t. on_option t (raise Error.ticket_not_found) pure

abbrev pub message_of : (ticket_id sender_id : ℕ) → Bool → (body : ℕ) → TicketMessage
message_of ticket_id sender_id is_admin body = record {
  ticket_id = ticket_id;
  sender_id = sender_id;
  is_admin = is_admin;
  body = body;
}

abbrev pub new_ticket : (user_id subject : ℕ) → Ticket
new_ticket user_id subject = record {
  user_id = user_id;
  subject = subject;
  status = TicketStatus.opened;
}

-- `Create`: one open ticket for each user, with its first message. The two rows are not written in
-- one transaction.
unfoldable pub create : (user_id : ℕ) (valid : Bool) (subject message : ℕ) → Exec ℕ
create user_id valid subject message = do
  fail_if (not valid) Error.invalid_request
  open_count ← count_open_tickets user_id
  fail_if (ltb 0 open_count) Error.ticket_limit
  id ← new_id
  create_ticket id (new_ticket user_id subject)
  add_ticket_message (message_of id user_id false message)
  pure id

-- `GetWithMessages`
unfoldable pub get_with_messages :
    (user_id : ℕ) (valid : Bool) (ticket_id : ℕ) → Exec (Ticket × List TicketMessage)
unfolding ticket_or_404
get_with_messages user_id valid ticket_id = do
  fail_if (not valid) Error.invalid_request
  t ← ticket_or_404 ticket_id
  fail_if (not (t.user_id == user_id)) Error.forbidden
  messages ← get_ticket_messages ticket_id
  pure (t, messages)

-- `Reply`
unfoldable pub reply : (user_id : ℕ) (valid : Bool) (ticket_id message : ℕ) → Exec (Unit {0})
unfolding ticket_or_404
reply user_id valid ticket_id message = do
  fail_if (not valid) Error.invalid_request
  t ← ticket_or_404 ticket_id
  fail_if (not (t.user_id == user_id)) Error.forbidden
  fail_if (not (is_open t.status)) Error.ticket_closed
  add_ticket_message (message_of ticket_id user_id false message)

-- `if user, err := h.repo.GetByID(...); err == nil && user != nil && user.TelegramID != nil`
unfoldable pub notify_owner : ℕ → Exec (Unit {0})
notify_owner user_id = do
  row ← attempt (get_by_id user_id)
  on_result row (λ _. pure tt)
      λ found.
        on_option found (pure tt)
          λ u. on_option u.telegram_id (pure tt) λ id. ignore (enqueue (Job.notify_telegram id))

-- `ReplyToTicket`: the answer of an administrator.
unfoldable pub reply_to_ticket :
    (admin_id : ℕ) (valid : Bool) (ticket_id message : ℕ) → Exec (Unit {0})
unfolding ticket_or_404 notify_owner audit
reply_to_ticket admin_id valid ticket_id message = do
  fail_if (not valid) Error.invalid_request
  t ← ticket_or_404 ticket_id
  add_ticket_message (message_of ticket_id admin_id true message)
  ignore (update_ticket_status ticket_id TicketStatus.answered)
  notify_owner t.user_id
  audit

-- `GetTicket` of the administrator.
unfoldable pub get_ticket : (valid : Bool) (ticket_id : ℕ) → Exec (Ticket × List TicketMessage)
unfolding ticket_or_404
get_ticket valid ticket_id = do
  fail_if (not valid) Error.invalid_request
  t ← ticket_or_404 ticket_id
  messages ← get_ticket_messages ticket_id
  pure (t, messages)

-- `CloseTicket`
unfoldable pub close_ticket : (valid : Bool) (ticket_id : ℕ) → Exec (Unit {0})
unfolding ticket_or_404 notify_owner audit
close_ticket valid ticket_id = do
  fail_if (not valid) Error.invalid_request
  t ← ticket_or_404 ticket_id
  update_ticket_status ticket_id TicketStatus.closed
  notify_owner t.user_id
  audit
