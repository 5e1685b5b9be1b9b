-- ===== src/Telnet/Answers.antt =====
-- Which commands read past the end of their arguments.
mod Rules
mod Handlers
mod Settings
mod Lines
pub use Rules.{Answers}
pub use Lines.{overreads, handle_command-overreads, run-Answers, AreComplete}
