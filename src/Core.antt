-- ===== src/Core.antt =====
-- backend/internal/core: the in-memory state engine.
pub mod Types
pub mod State
pub mod Lifecycle
pub mod Matching
pub mod Points
pub mod Sessions
pub mod Valid
pub mod Requests
pub mod Responders
pub mod Timeouts
pub mod Reactions
pub mod Accounts
pub mod Board
pub mod Conversations
pub mod History
pub mod Invariants
