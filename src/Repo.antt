-- ===== src/Repo.antt =====
-- internal/repository/postgres: the statements that the services and the worker run, table by
-- table. A statement takes one outcome of the environment before it reads or writes; a row that a
-- constraint refuses is an error. The columns created_at and updated_at are kept where code reads
-- them.
pub mod Users
pub mod Accounts
pub mod Profiles
pub mod Merge
pub mod Subscriptions
pub mod Payments
pub mod Rewards
pub mod Promos
pub mod Shop
pub mod Tickets
pub mod Expansions
