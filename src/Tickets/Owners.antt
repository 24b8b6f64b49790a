-- ===== src/Tickets/Owners.antt =====
-- Who sent the messages of a ticket, table by table.
use mathlib.Core.Option
use testmellow.Prelude.{
  ℕ, ◌≡◌, refl, Bool, false, ◌&&◌, not, Option, none, List, [], ◌∷◌, arith, Option-cases, inl, inr,
  ◌==◌, if◌then◌else◌, Table, find, find-cons, find-update, update, update_where, exists, map_where,
}
use testmellow.Domain.{TicketStatus}
use testmellow.World.Rows.{Db, Ticket, TicketMessage}
use testmellow.Repo.Accounts.{equals}

abbrev pub owner_of : ℕ → Table Ticket → Option ℕ
owner_of id ts = Option.map (λ t. t.user_id) (find id ts)

-- A message that is neither of an administrator nor of the owner of its ticket.
abbrev pub is_foreign : Table Ticket → TicketMessage → Bool
is_foreign ts m = not m.is_admin && not (equals (owner_of m.ticket_id ts) m.sender_id)

abbrev pub IsOwned : Db → Type 0
IsOwned d = exists (is_foreign d.tickets) d.ticket_messages ≡ false

-- A new ticket.
pub cons-IsOwned :
    (id : ℕ) (t : Ticket) (ts : Table Ticket) (ms : List TicketMessage)
    → find id ts ≡ none
    → exists (is_foreign ts) ms ≡ false
    → exists (is_foreign ((id, t) ∷ ts)) ms ≡ false
cons-IsOwned id t ts [] n h = refl
cons-IsOwned id t ts (m ∷ ms) n h = elim (Option-cases (find m.ticket_id ts)) [
  | inl e ↦ ground (arith, h, e, n, find-cons id m.ticket_id t ts, cons-IsOwned id t ts ms n)
  | inr (u, e) ↦ ground (arith, h, e, n, find-cons id m.ticket_id t ts, cons-IsOwned id t ts ms n)
]

-- A ticket with another status.
pub status-IsOwned :
    (id : ℕ) (s : TicketStatus) (ts : Table Ticket) (ms : List TicketMessage)
    → exists (is_foreign ts) ms ≡ false
    → exists (is_foreign (update id (λ t. record t { status = s }) ts)) ms ≡ false
status-IsOwned id s ts [] h = refl
status-IsOwned id s ts (m ∷ ms) h = elim (Option-cases (find m.ticket_id ts)) [
  | inl e ↦ ground (
    arith,
    h,
    e,
    find-update id m.ticket_id (λ t. record t { status = s }) ts,
    status-IsOwned id s ts ms,
  )
  | inr (u, e) ↦ ground (
    arith,
    h,
    e,
    find-update id m.ticket_id (λ t. record t { status = s }) ts,
    status-IsOwned id s ts ms,
  )
]

find-update_where :
    {V : Type 0} (k : ℕ) (p : V → Bool) (f : V → V) (t : Table V)
    → find k (update_where p f t) ≡ Option.map (λ v. if p v then f v else v) (find k t)
unfolding find update_where
find-update_where k p f [] = refl
find-update_where k p f ((j, v) ∷ t) = ground (arith, find-update_where k p f t)

-- Tickets and messages of one user that go to another.
pub moved-IsOwned :
    (src dst : ℕ) (ts : Table Ticket) (ms : List TicketMessage)
    → exists (is_foreign ts) ms ≡ false
    → exists
        (is_foreign (update_where (λ t. t.user_id == src) (λ t. record t { user_id = dst }) ts))
        (map_where (λ m. m.sender_id == src) (λ m. record m { sender_id = dst }) ms)
      ≡ false
unfolding map_where
moved-IsOwned src dst ts [] h = refl
moved-IsOwned src dst ts (m ∷ ms) h = elim (Option-cases (find m.ticket_id ts)) [
  | inl e ↦ ground (
    arith,
    h,
    e,
    find-update_where m.ticket_id (λ t. t.user_id == src) (λ t. record t { user_id = dst }) ts,
    moved-IsOwned src dst ts ms,
  )
  | inr (u, e) ↦ ground (
    arith,
    h,
    e,
    find-update_where m.ticket_id (λ t. t.user_id == src) (λ t. record t { user_id = dst }) ts,
    moved-IsOwned src dst ts ms,
  )
]
