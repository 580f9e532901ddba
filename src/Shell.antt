-- ===== src/Shell.antt =====
-- The shell: kernel/src/shell.
pub mod Parser
pub mod Console
pub mod Commands
pub mod Line
pub mod Run
pub mod Keyboard
mod Tests
