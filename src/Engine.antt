-- ===== src/Engine.antt =====
-- internal/engine: the pure, deterministic game core.
pub mod Rules
pub mod Kinds
pub mod State
pub mod Command
pub mod Event
pub mod Game
pub mod Timers
pub mod Monad
pub mod Table
pub mod Tail
pub mod Score
pub mod Content
pub mod Answer
pub mod Secret
pub mod Stake
pub mod Hidden
pub mod Final
pub mod Appeal
pub mod Flow
pub mod Question
pub mod Control
pub mod Showman
pub mod Seats
pub mod Create
pub mod Input
pub mod Judge
pub mod Dispatch
pub mod Snapshot
mod Samples
mod Tests
