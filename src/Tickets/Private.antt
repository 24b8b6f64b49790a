-- ===== src/Tickets/Private.antt =====
-- What a user reads of tickets, after any operations of the service.
use testmellow.Prelude.{
  ℕ, ◌≡◌, refl, Bool, true, false, ◌&&◌, ◌||◌, not, some, List, [], ◌∷◌, ◌++◌, arith, Option-cases,
  Bool-cases, inl, inr, ◌==◌, find, exists,
}
use testmellow.World.Rows.{Db, Ticket, TicketMessage}
use testmellow.World.Exec.{
  Result_cases, ok, World, pure, raise, attempt, ◌>>=◌, on_option, on_result, remote, query,
  fail_if,
}
use testmellow.Repo.Tickets.{messages_of, get_ticket_by_id, get_ticket_messages}
use testmellow.Repo.Merge.{merge_users}
use testmellow.Tickets.{
  ticket_or_404, create, get_with_messages, reply, reply_to_ticket, close_ticket,
}
use testmellow.Tickets.Owners.{IsOwned, is_foreign}
use testmellow.Tickets.Ownership.{
  create-IsOwned, reply-IsOwned, reply_to_ticket-IsOwned, close_ticket-IsOwned, merge_users-IsOwned,
}

-- The operations that write tickets or messages, and whatever else happens.
pub data Step : World → World → Type 0 where
  created : (user : ℕ) (v : Bool) (s text : ℕ) (w : World) → Step w (create user v s text w).1
  replied : (user : ℕ) (v : Bool) (id text : ℕ) (w : World) → Step w (reply user v id text w).1
  answered :
      (admin : ℕ) (v : Bool) (id text : ℕ) (w : World)
      → Step w (reply_to_ticket admin v id text w).1
  closed : (v : Bool) (id : ℕ) (w : World) → Step w (close_ticket v id w).1
  joined : (src dst : ℕ) (w : World) → Step w (merge_users src dst w).1
  other :
      (w w' : World)
      → w'.db.tickets ≡ w.db.tickets
      → w'.db.ticket_messages ≡ w.db.ticket_messages
      → Step w w'

pub data History (w : World) : World → Type 0 where
  start : History w w
  then_ : {v u : World} → History w v → Step v u → History w u

Step-IsOwned : (w u : World) → Step w u → IsOwned w.db → IsOwned u.db
Step-IsOwned _ _ (Step.created user v s text w) o = (create-IsOwned user v s text).at w o
Step-IsOwned _ _ (Step.replied user v id text w) o = (reply-IsOwned user v id text).at w o
Step-IsOwned _ _ (Step.answered admin v id text w) o =
    (reply_to_ticket-IsOwned admin v id text).at w o
Step-IsOwned _ _ (Step.closed v id w) o = (close_ticket-IsOwned v id).at w o
Step-IsOwned _ _ (Step.joined src dst w) o = (merge_users-IsOwned src dst).at w o
Step-IsOwned _ _ (Step.other w w' t m) o = ground (arith, o, t, m)

History-IsOwned : (w u : World) → History w u → IsOwned w.db → IsOwned u.db
History-IsOwned w _ History.start o = o
History-IsOwned w _ (History.then_ h s) o = Step-IsOwned _ _ s (History-IsOwned w _ h o)

-- Neither an administrator's nor the user's.
abbrev pub of_another : ℕ → TicketMessage → Bool
of_another user m = not m.is_admin && not (m.sender_id == user)

exists-++ :
    {A : Type 0} (p : A → Bool) (xs ys : List A)
    → exists p (xs ++ ys) ≡ (exists p xs || exists p ys)
exists-++ p [] ys = refl
exists-++ p (x ∷ xs) ys = ground (arith, exists-++ p xs ys)

messages-own :
    (id user : ℕ) (t : Ticket) (d : Db) (ms : List TicketMessage)
    → find id d.tickets ≡ some t
    → t.user_id ≡ user
    → exists (is_foreign d.tickets) ms ≡ false
    → exists (of_another user) (messages_of id ms) ≡ false
messages-own id user t d [] f e h = refl
messages-own id user t d (m ∷ ms) f e h = ground (
  arith,
  f,
  e,
  h,
  messages-own id user t d ms f e,
  exists-++ (of_another user) (messages_of id ms) (m ∷ []),
)

read-own :
    (user : ℕ) (v : Bool) (id : ℕ) (w : World) (t : Ticket) (ms : List TicketMessage)
    → (get_with_messages user v id w).0 ≡ ok (t, ms)
    → (find id w.db.tickets ≡ some t)
      × (t.user_id ≡ user)
      × (ms ≡ messages_of id w.db.ticket_messages)
unfolding get_with_messages ticket_or_404 get_ticket_by_id get_ticket_messages query attempt ◌>>=◌
    on_result on_option raise pure remote fail_if
read-own user true id w t ms h = elim (Result_cases (remote w).0) [
  | inl (n, r) ↦ elim (Option-cases (find id w.db.tickets)) [
    | inl e ↦ absurd (ground (arith, h, r, e))
    | inr (u, e) ↦ elim (Bool-cases (u.user_id == user)) [
      | inl p ↦ elim (Result_cases (remote (remote w).1).0) [
        | inl (k, q) ↦ ground (arith, h, r, e, p, q)
        | inr (x, q) ↦ absurd (ground (arith, h, r, e, p, q))
      ]
      | inr p ↦ absurd (ground (arith, h, r, e, p))
    ]
  ]
  | inr (e, r) ↦ absurd (ground (arith, h, r))
]
read-own user false id w t ms h = absurd (ground (arith, h))

-- Tickets are private. Start from a database in which every message that is not an administrator's
-- was sent by the owner of its ticket, and let tickets be created, answered and closed, replies be
-- sent and accounts be merged, with any failures, and all else happen that does not write tickets.
-- If a user then gets a ticket with its messages, the ticket is the user's, the messages are those
-- of this ticket, and none was sent by anybody but the user and administrators.
pub get_with_messages-private :
    (w u : World) (h : History w u) (user : ℕ) (v : Bool) (id : ℕ) (t : Ticket)
    (ms : List TicketMessage)
    → IsOwned w.db
    → (get_with_messages user v id u).0 ≡ ok (t, ms)
    → (find id u.db.tickets ≡ some t)
      × (t.user_id ≡ user)
      × (ms ≡ messages_of id u.db.ticket_messages)
      × (exists (of_another user) ms ≡ false)
get_with_messages-private w u h user v id t ms o k =
    let (f, e, m) = read-own user v id u t ms k in
    let mine = messages-own id user t u.db u.db.ticket_messages f e (History-IsOwned w u h o) in
    (f, e, m, rw m mine)
