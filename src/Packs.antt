-- ===== src/Packs.antt =====
-- internal/packs: packs as they come in, their checks and their identifiers.
pub mod Model
pub mod Texts
pub mod Validate
pub mod Question
pub mod Rounds
pub mod Ids
pub mod Normalize
pub mod Summary
mod Tests
