-- ===== src/Terminal.antt =====
-- internal/console: what a guest's output does to the terminal that the status bar shares with it.
pub mod Scan
pub mod ModeFilter
pub mod Tests
