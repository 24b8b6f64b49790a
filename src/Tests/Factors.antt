-- ===== src/Tests/Factors.antt =====
-- Runs of the second factor, of the bot and of the profile.
use testmellow.Prelude.{ℕ, ◌≡◌, refl, true, some, List, [], ◌∷◌, arith, find, rows_where, false}
use testmellow.World.Rows.{User}
use testmellow.World.Exec.{
  World, ok, ◌>>=◌, on_option, on_result, fail_if, attempt, ignore, now, new_id, remote, query,
  execute, modify_db, raise, pure, err, Error,
}
use testmellow.Redis.Store.{get, put, del}
use testmellow.Redis.Limits.{script, check_rate_limit, increment, increment_script}
use testmellow.Redis.Sessions.{
  set_password_version, revoke_all, register_refresh_token, register_script, del_tokens,
  banned_check, set_ban_key,
}
use testmellow.Redis.Challenge.{
  get_challenge, create_challenge, resolve_challenge, split_tfa_value, split_below, text_eq, drop,
  byte_at,
}
use testmellow.Redis.Challenge.Commands.{
  create_2fa_challenge, get_2fa_challenge, resolve_2fa_challenge,
}
use testmellow.Repo.Users.{get_by_id}
use testmellow.Repo.Profiles.{get_by_telegram_id, set_password, create_activity, update_ban_status}
use testmellow.Jwt.{generate, generate_refresh}
use testmellow.Http.Auth.{Tokens, TfaAnswer, tfa_check, approve, issue_tokens}
use testmellow.Http.Replay.{calm}
use testmellow.Bot.{check_callback, handle_tfa_callback, handle_reset_password, reset_password}
use testmellow.Bot.Reset.{HasReset, handle_reset_password-guard}
use testmellow.System.TwoFactor.{Step, History, WasApproved, tfa_check-owner}
use testmellow.Tests.Worlds.{alice, shop_db, sunny, plain_uuid, plain_tokens}
use testmellow.Admin.{ban_user, unban_user, audit}
use testmellow.Admin.Bans.{ban_user-blocks}

abbrev linked : User
linked = record alice { telegram_id = some 55 }

abbrev linked_world : World
linked_world = record sunny { db = record shop_db { users = (1, linked) ∷ [] } }

-- Challenge 9 is made for user 1, and approved from Telegram account 55.
abbrev asked : World
asked = (create_2fa_challenge 9 (1 ∷ []) linked_world).1

abbrev confirmed : World
confirmed = (handle_tfa_callback plain_uuid 55 9 true asked).1

abbrev history : History plain_uuid linked_world confirmed
history =
    History.then_ (History.then_ History.start (Step.challenge 9 (1 ∷ []) linked_world))
      (Step.answer 55 9 true asked)

abbrev factor_tokens : Tokens ℕ
factor_tokens = record { access = 100; refresh = 101 }

lets_in :
    (tfa_check plain_tokens plain_uuid 9 4 confirmed).0
    ≡ ok (TfaAnswer.approved factor_tokens 1 true)
unfolding tfa_check approve issue_tokens generate generate_refresh register_refresh_token
    register_script handle_tfa_callback check_callback create_2fa_challenge get_2fa_challenge
    resolve_2fa_challenge get_challenge create_challenge resolve_challenge split_tfa_value
    split_below text_eq drop byte_at script put get_by_id ◌>>=◌ on_option fail_if ignore attempt now
    new_id remote query raise pure find
lets_in = refl

tfa_check-owner_example :
    (text : List ℕ) × (plain_uuid.parse text ≡ some 1)
    × WasApproved plain_uuid linked_world 9 text confirmed history
tfa_check-owner_example =
    tfa_check-owner plain_tokens plain_uuid linked_world confirmed history 9 4 factor_tokens 1 true
      (λ j. refl) lets_in

-- The new password is 0, the next answer of the random source.
resets : (handle_reset_password (λ p. some p) 55 linked_world).0 ≡ ok 0
unfolding handle_reset_password reset_password check_rate_limit increment increment_script
    get_by_telegram_id set_password set_password_version revoke_all del_tokens create_activity
    script get put del ◌>>=◌ on_option on_result fail_if ignore attempt now remote query execute
    modify_db raise pure rows_where
resets = refl

handle_reset_password-guard_example :
    HasReset (λ p. some p) 55 0 linked_world (handle_reset_password (λ p. some p) 55 linked_world).1
handle_reset_password-guard_example =
    handle_reset_password-guard (λ p. some p) 55 linked_world 0 resets

linked_found : find 1 linked_world.db.users ≡ some linked
unfolding find
linked_found = refl

-- A minute after user 1 was banned.
abbrev banned_world : World
banned_world = record (ban_user 1 (calm linked_world)).1 { clock = 1060 }

banned_answers : (remote banned_world).0 ≡ ok 0
unfolding ban_user update_ban_status set_ban_key audit script ◌>>=◌ attempt ignore remote execute
    modify_db
banned_answers = refl

ban_user-blocks_example :
    (find 1 banned_world.db.users ≡ some (record linked { is_banned = true }))
    × ((banned_check 1 banned_world).0 ≡ err Error.banned)
    × (find 1 (unban_user 1 (calm banned_world)).1.db.users
        ≡ some (record linked { is_banned = false }))
    × ((banned_check 1 (unban_user 1 (calm banned_world)).1).0 ≡ ok tt)
ban_user-blocks_example =
    ban_user-blocks 1 0 linked linked_world banned_world linked_found refl refl (omega arith)
      banned_answers
