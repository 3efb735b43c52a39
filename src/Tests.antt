-- ===== src/Tests.antt =====
-- The properties at concrete inputs.
mod Lists
mod Trees
mod Tables
mod Locks
mod Queues
mod Texts
mod Streams
mod Tasks
mod Timers
mod Contexts
mod Pools
