-- ===== src/Repositories.antt =====
-- backend/src/infrastructure/repositories: the entities in their tables.
pub mod Table
pub mod Values
pub mod Turns
pub mod Generations
pub mod Voices
pub mod Writes
pub mod Json
pub mod CallSessions
pub mod ToolExecutions
pub mod Schema
