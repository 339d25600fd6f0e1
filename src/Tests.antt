-- ===== src/Tests.antt =====
-- Concrete runs: samples, and the theorems at inputs that meet their hypotheses.
pub mod Samples
mod Agents
mod Answers
mod Matching
mod Reactions
mod Rounds
mod Tables
mod Redis
mod Limits
mod Refusals
mod Streams
mod Sockets
mod Archives
mod Simulations
mod Logins
