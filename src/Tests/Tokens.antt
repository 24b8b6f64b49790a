-- ===== src/Tests/Tokens.antt =====
-- Runs of tokens, with a library whose tokens are their claims.
use testmellow.Prelude.{
  ℕ, ◌≡◌, refl, ◌⊎◌, true, false, ◌&&◌, Option, none, some, List, [], ◌∷◌, arith, ◌==◌, ltb, exists,
  if◌then◌else◌, find,
}
use testmellow.World.Exec.{
  Error, World, ok, err, ◌>>=◌, on_option, on_result, fail_if, attempt, ignore, now, new_id, remote,
  query, raise, pure,
}
use testmellow.Redis.Store.{Entry, get, put, del, key_eq}
use testmellow.Redis.Limits.{script}
use testmellow.Redis.Sessions.{
  refresh_key, password_version_key, check_password_version, validate_and_revoke, banned_check,
  register_refresh_token, register_script, take_script, members,
}
use testmellow.Redis.Sessions.Contract.{Command, run, promise}
use testmellow.Redis.Sessions.Refinement.{run-promise}
use testmellow.Redis.Sessions.Simulation.{Refines}
use testmellow.Repo.Users.{get_by_id}
use testmellow.Jwt.{
  TokenClaims, TokenLibrary, IsFaithful, generate, generate_refresh, parse_refresh, access_claims,
  refresh_claims,
}
use testmellow.Http.Auth.{Tokens, refresh, exchange, redeem_refresh, accept_stored, issue_tokens}
use testmellow.Http.Rotation.{refresh-once}
use testmellow.Http.Replay.{calm, refresh-replay}
use testmellow.Tests.Worlds.{sunny, no_keys}

abbrev checked : (now issuer audience : ℕ) → TokenClaims → Option TokenClaims
checked now issuer audience c =
    if (c.issuer == issuer) && (c.audience == audience) && ltb now c.expires_at
    then some c
    else none

abbrev open_tokens : TokenLibrary TokenClaims
open_tokens = record { sign = λ c. some c; parse = checked; access_ttl = 900 }

open_tokens-IsFaithful : IsFaithful open_tokens
open_tokens-IsFaithful = record {
  same_claims = λ c d token now issuer audience s p. ground (arith, s, p);
  checked =
      λ c token now issuer audience p. (ground (arith, p), ground (arith, p), ground (arith, p));
}

abbrev access_token : TokenClaims
access_token = access_claims open_tokens 1 false 1000 100

abbrev refresh_token : TokenClaims
refresh_token = refresh_claims 1 false 1000 100

-- Token 50 of user 1 is in Redis.
abbrev held_token : TokenClaims
held_token = refresh_claims 1 false 900 50

abbrev signed_in : World
signed_in = record sunny {
  cache = record no_keys {
    entry = λ k.
        if key_eq (refresh_key 50) k
        then some (record { value = 1; expires_at = some 9000 })
        else none;
    sets = λ u. if u == 1 then 50 ∷ [] else [];
    set_ends = λ u. some 12600;
  };
}

abbrev refreshed : World
refreshed = (refresh open_tokens (some held_token) signed_in).1

abbrev new_tokens : Tokens TokenClaims
new_tokens = record {
  access = access_claims open_tokens 1 true 1000 100;
  refresh = refresh_claims 1 true 1000 101;
}

refreshes : (refresh open_tokens (some held_token) signed_in).0 ≡ ok new_tokens
unfolding refresh exchange redeem_refresh accept_stored issue_tokens generate generate_refresh
    parse_refresh check_password_version validate_and_revoke banned_check register_refresh_token
    register_script take_script script get_by_id get put del ◌>>=◌ on_option on_result fail_if
    attempt ignore now new_id remote query raise pure find
refreshes = refl

refresh-once_example :
    ((e : Entry) × (get 1000 (refresh_key 50) signed_in.cache ≡ some e)
      × ((e.value ≡ 0) ⊎ (e.value ≡ 1)))
    × ((e : Error) × ((refresh open_tokens (some held_token) refreshed).0 ≡ err e))
refresh-once_example =
    refresh-once open_tokens open_tokens-IsFaithful held_token held_token signed_in refreshed
      new_tokens refl (omega arith) refreshes refl

-- Token 60 is not.
abbrev stolen_token : TokenClaims
stolen_token = refresh_claims 1 false 900 60

accepted : parse_refresh open_tokens 1000 stolen_token ≡ some stolen_token
unfolding parse_refresh
accepted = refl

no_change : (check_password_version 1 900 (calm signed_in)).0 ≡ ok tt
unfolding check_password_version script ◌>>=◌ attempt on_result fail_if remote get pure
no_change = refl

refresh-replay_example :
    ((refresh open_tokens (some stolen_token) (calm signed_in)).0 ≡ err Error.session_compromised)
    × ((j t : ℕ)
        → exists (λ i. i == j) (members 1000 1 signed_in.cache) ≡ true
        → get t (refresh_key j) (refresh open_tokens (some stolen_token) (calm signed_in)).1.cache
          ≡ none)
    × ((refresh open_tokens (some stolen_token) (calm signed_in)).1.cache.entry
          (password_version_key 1)
        ≡ some (record { value = 1000; expires_at = some 2593000 }))
refresh-replay_example =
    refresh-replay open_tokens stolen_token stolen_token signed_in accepted refl no_change

-- Two registrations, a use, and the end of all sessions.
abbrev commands : List (ℕ × Command)
commands =
    (0, Command.register 70 1)
    ∷ (5, Command.register 71 1)
    ∷ (5, Command.redeem 70)
    ∷ (5, Command.cancel_all 1)
    ∷ (5, Command.redeem 71)
    ∷ []

nothing_held : Refines 100 1000 [] no_keys (λ j. none)
nothing_held = record {
  same = λ j t l. refl;
  covered = λ j t e l h v. absurd (ground (arith, h));
  own = λ j u e m h. absurd (ground (arith, m));
  known = λ j u m. absurd (ground (arith, m));
  brief = λ j t e h v. absurd (ground (arith, h));
}

run-promise_example : run 100 commands sunny ≡ promise 100 commands 1000 (λ j. none)
run-promise_example =
    run-promise 100 commands [] (λ j. none) sunny nothing_held (refl, (refl, (tt, (tt, (tt, tt)))))
