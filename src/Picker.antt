-- ===== src/Picker.antt =====
-- internal/session: the interactive list of guests and nodes, its order and its window.
pub mod Order
pub mod Window
pub mod Tests
