-- ===== src/Tests.antt =====
-- Small runs of the programs, and each theorem at one of them.
mod Demo
mod Plain
mod Tasks
mod Lifetime
mod Threads
mod Select
mod Client
mod Reactor
mod BlockingClient
mod ConditionPool
mod Aio
mod Locks
mod Clients
