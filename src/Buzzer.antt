-- ===== src/Buzzer.antt =====
-- internal/buzzer: the button. Measurements of each connection, and the decision of one arm.
pub mod Floats
pub mod Settings
pub mod Ring
pub mod Constants
pub mod Stats
pub mod Conn
pub mod Trust
pub mod Clock
pub mod Sync
pub mod Arm
pub mod Press
pub mod Collect
pub mod Decide
pub mod Run
mod Samples
mod Tests
