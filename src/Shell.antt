-- ===== src/Shell.antt =====
-- The shell: shell/.
pub mod History
pub mod Parsing
mod Tests
