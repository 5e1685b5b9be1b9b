-- ===== src/Telnet/Alive.antt =====
-- The commands keep every service in order.
mod Rules
mod Handlers
mod Settings
mod Lines
pub use Rules.{After, Ensures}
pub use Lines.{ArePossible, run-IsOrderly}
