-- ===== src/Lib.antt =====
-- The payment, subscription and reward logic of a VPN platform: a Go service with an HTTP API, a
-- worker and a Telegram bot over PostgreSQL, Redis, the payment gateway Platega and the VPN panel
-- Remnawave.
--
-- The parts and how they interact. The services (internal/service/service.go) run for the HTTP
-- handlers: AuthService, SubscriptionService (checkouts), EconomyService (the currency YAD, promo
-- codes, the shop) and TrialService. Platega reports payments to the webhook
-- (internal/handler/webhook/platega.go), which puts jobs on the queues of the worker
-- (internal/worker/worker.go); the worker confirms or reverts payments, activates what was bought,
-- pays referral rewards and sweeps what has expired. All state is in the database, through the
-- statements of internal/repository/postgres/user_repo.go, and in Redis
-- (internal/repository/redis/redis.go: counters, locks, tokens), which
-- internal/anticheat/engine.go uses for limits.
--
-- The files.
--   Prelude            Boolean tests, tables (lists of rows under keys), integers with `int64`.
--   Domain, Anticheat  the pure tables and scores of internal/domain/domain.go and engine.go.
--   World              the rows of the tables, the state that the processes share, and the monad of
--                      Go functions that may fail (World/Exec); the rules for invariants of the
--                      database (Keeps, KeepsOk), for errors that change nothing (Atomic), for what
--                      is returned (Gives), achieved (Makes) and queued (Adds), and for parts that
--                      only read, up to the first write (Stays).
--   Redis              the key-value store, whose keys and sets of refresh tokens expire, and its
--                      scripts, locks, sessions and challenges.
--                      Redis/Sessions/Contract is what the refresh tokens promise, a table of who
--                      holds which token until when; Redis/Codes has the codes of the bot.
--   Repo               one function for each SQL statement, named as the method is in snake_case.
--                      Repo/Merge is MergeUsers, statements with the constraints they meet.
--   Ledger             the balance invariant, statement by statement.
--   Jwt                pkg/jwt/jwt.go: the claims of access and refresh tokens.
--   Remnawave          the panel as its callers see it.
--   Economy, Trial, Billing, Auth   the services, with the webhook in Billing/Webhook.
--   Worker             the jobs, the sweeps, and the retry rule of the queue (Worker/Queue).
--   Gate               internal/middleware/middleware.go: tokens, administrators, CORS, limits.
--   Http               internal/handler/http/handlers.go: Http/Auth has sign-in, the rotation of
--                      refresh tokens and the two-factor check, Http/Profile what users change.
--   Bot                internal/bot/bot.go: linking, unlinking, password reset, two-factor answers.
--   Admin              internal/handler/admin: users, payments, subscriptions, promo codes.
--   Tickets            the tickets of users and administrators (handlers.go, admin/admin.go).
--   Devices            DeviceService of internal/service/service.go.
--   System             all operations as the steps of one state machine; System/TwoFactor follows a
--                      challenge through its steps.
--   Tests              a small database and concrete runs.
--
-- How the code is read. A function of Go that returns an error is an `Exec`: from a world to a
-- result and a world. Every call that leaves the process takes the next outcome of the list
-- `outcomes` of the world (success, failure, or a serialization failure), so what holds for all
-- worlds holds whichever calls fail. A transaction puts the database back after an error, a failed
-- commit included; a Redis script and a single SQL statement are one step. Operations run one
-- after another: concurrent transactions are taken as serialized by the database, which the code
-- asks for by its isolation level or by row locks. Times are seconds, identifiers and texts are
-- numbers with 0 for the empty text, and amounts keep the range checks of BIGINT and the
-- wrap-around of `int64` where a product can pass it. Loops over rows are recursion on lists; the
-- retry loops are recursion on the number of attempts; the loop of a job runs on fuel, of which 6 is
-- enough.
--
-- What stands outside. The answers of Platega and of the panel, bcrypt, the parser of UUIDs and the
-- signatures of golang-jwt are parameters. HTTP decoding, logging, message texts, the dialogues of
-- the bot, listings, broadcasts, settings, suggestions, the schema migrations, configuration and the
-- web client are not modelled. Nor are MergeAccounts, which nothing calls, the deferred rewards,
-- whose sweep is switched off, and what a concurrent transaction could read between the statements
-- of one transaction.
pub mod Prelude
pub mod Domain
pub mod Anticheat
pub mod Redis
pub mod World
pub mod Repo
pub mod Ledger
pub mod Remnawave
pub mod Economy
pub mod Worker
pub mod Billing
pub mod System
pub mod Tests
pub mod Gate
pub mod Jwt
pub mod Http
pub mod Tickets
pub mod Devices
pub mod Bot
pub mod Admin
pub mod Trial
pub mod Auth
