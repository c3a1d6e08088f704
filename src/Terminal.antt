-- ===== src/Terminal.antt =====
-- modules/terminal: the scanner of key events.
pub mod KeyEventScanner
