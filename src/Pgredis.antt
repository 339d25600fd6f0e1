-- ===== src/Pgredis.antt =====
-- backend/internal/pgredis: the backend that keeps its state in PostgreSQL and Redis.
pub mod Tables
pub mod Transactions
pub mod Creation
pub mod Mirror
pub mod Steps
pub mod Keeps
pub mod Refines
pub mod Runs
pub mod Stream
pub mod Conversations
pub mod Accounts
pub mod Departures
pub mod Arrivals
pub mod Redis
