-- ===== src/Redis/Challenge/Commands.antt =====
-- redis.go: the commands on the challenges of a Redis database.
use testmellow.Prelude.{ℕ, Option, List, ◌==◌, if◌then◌else◌}
use testmellow.World.Exec.{Exec}
use testmellow.Redis.Store.{Cache}
use testmellow.Redis.Limits.{script}
use testmellow.Redis.Challenge.{Challenge, create_challenge, get_challenge, resolve_challenge}

abbrev pub set_challenge : ℕ → Option Challenge → Cache → Cache
set_challenge id c cache = record cache {
  challenges = λ j. if j == id then c else cache.challenges j;
}

-- `Create2FAChallenge`
unfoldable pub create_2fa_challenge : ℕ → List ℕ → Exec (Unit {0})
unfolding script create_challenge
create_2fa_challenge id user_id =
    script (λ now c. (tt, set_challenge id (create_challenge now user_id) c))

-- `Get2FAChallenge`: the user and the status, nothing for an absent key.
unfoldable pub get_2fa_challenge : ℕ → Exec (Option (List ℕ × List ℕ))
unfolding script get_challenge
get_2fa_challenge id = script (λ now c. (get_challenge now (c.challenges id), c))

-- `Resolve2FAChallenge`
unfoldable pub resolve_2fa_challenge : ℕ → List ℕ → Exec (Unit {0})
unfolding script resolve_challenge
resolve_2fa_challenge id status =
    script (λ now c. (tt, set_challenge id (resolve_challenge now status (c.challenges id)) c))
