-- ===== src/Tests.antt =====
-- Concrete runs.
mod Worlds
mod Money
mod Access
mod Counters
mod Accounts
mod Sessions
mod Tokens
mod Merges
mod Factors
mod Tickets
mod Devices
