-- ===== src/Redis/Sessions/Contract.antt =====
-- What the allow-list of refresh tokens promises, with no sets and no keys: who holds which token.
use testmellow.Prelude.{
  ℕ, ◌+◌, Bool, false, Option, none, some, List, [], ◌∷◌, ◌≡◌, ◌==◌, if◌then◌else◌, exists,
}
use testmellow.World.Exec.{Result, ok, err, World, Exec, pure, attempt, ◌>>=◌, ◌>>◌}
use testmellow.Redis.Store.{Entry, live}
use testmellow.Redis.Sessions.{register_refresh_token, validate_and_revoke, revoke, revoke_all}

-- The calls of the services, each after some seconds. All tokens live for `ttl` seconds, the
-- lifetime that the JWT manager is configured with.
pub data Command : Type 0 where
  register : (jti user : ℕ) → Command
  redeem cancel : (jti : ℕ) → Command
  cancel_all : (user : ℕ) → Command

pub data Answer : Type 0 where
  done : Answer
  holder : Option ℕ → Answer

-- The holder of each token and the time at which it ends.
abbrev pub Held : Type 0
Held = ℕ → Option Entry

abbrev pub owner : Option Entry → Option ℕ
owner none = none
owner (some e) = some e.value

abbrev pub is_of : ℕ → Option Entry → Bool
is_of user none = false
is_of user (some e) = e.value == user

abbrev pub with_token : ℕ → Option Entry → Held → Held
with_token jti e s = λ j. if jti == j then e else s j

unfoldable pub promised : (ttl : ℕ) → Command → (now : ℕ) → Held → Answer × Held
promised ttl (Command.register jti user) now s =
    (done, with_token jti (some (record { value = user; expires_at = some (now + ttl) })) s)
promised ttl (Command.redeem jti) now s = (holder (owner (live now (s jti))), with_token jti none s)
promised ttl (Command.cancel jti) now s = (done, with_token jti none s)
promised ttl (Command.cancel_all user) now s = (done, λ j. if is_of user (s j) then none else s j)

-- The code, on Redis.
abbrev pub holder_of : Result ℕ → Answer
holder_of (ok user) = holder (some user)
holder_of (err e) = holder none

unfoldable pub executed : (ttl : ℕ) → Command → Exec Answer
executed ttl (Command.register jti user) = do register_refresh_token jti user ttl; pure done
executed ttl (Command.redeem jti) = do r ← attempt (validate_and_revoke jti); pure (holder_of r)
executed ttl (Command.cancel jti) = do revoke jti; pure done
executed ttl (Command.cancel_all user) = do revoke_all user; pure done

-- The world some seconds later, in which Redis answers.
abbrev pub later : ℕ → World → World
later seconds w = record w { clock = w.clock + seconds; outcomes = [] }

unfoldable pub run : (ttl : ℕ) → List (ℕ × Command) → World → List (Result Answer)
run ttl [] w = []
run ttl ((seconds, c) ∷ cs) w =
    (executed ttl c (later seconds w)).0 ∷ run ttl cs (executed ttl c (later seconds w)).1

unfoldable pub promise : (ttl : ℕ) → List (ℕ × Command) → (now : ℕ) → Held → List (Result Answer)
promise ttl [] now s = []
promise ttl ((seconds, c) ∷ cs) now s =
    ok ((promised ttl c (now + seconds) s).0)
    ∷ promise ttl cs (now + seconds) ((promised ttl c (now + seconds) s).1)

-- The tokens registered so far, and that none is registered twice: an id is a new UUID.
abbrev pub registered : Command → List ℕ → List ℕ
registered (Command.register jti user) used = jti ∷ used
registered c used = used

abbrev pub IsFresh : Command → List ℕ → Type 0
IsFresh (Command.register jti user) used = exists (λ i. i == jti) used ≡ false
IsFresh c used = Unit

abbrev pub AllFresh : List ℕ → List (ℕ × Command) → Type 0
AllFresh used [] = Unit
AllFresh used ((seconds, c) ∷ cs) = IsFresh c used × AllFresh (registered c used) cs
