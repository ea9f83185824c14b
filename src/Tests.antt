-- ===== src/Tests.antt =====
-- Runs of the model at concrete inputs, and theorems applied at them.
mod State
mod Containers
mod Buffers
mod Requests
mod Jobs
mod Clients
mod Options
mod Windows
mod Rounds
mod Secure
mod Multiprecision
