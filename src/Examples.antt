-- ===== src/Examples.antt =====
-- Concrete states, and each result at one of them.
mod Data
mod Words
mod Locks
mod Oids
mod Queues
mod Logs
mod Readers
mod Chains
mod Rings
mod Updates
mod Commits
mod Xids
mod Bitsets
