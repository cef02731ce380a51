-- ===== src/Ui.antt =====
-- src/ui.c, src/ui.h and src/ui_adapter.c: the messages for the screen, the loop of the screen, and
-- what an input does.
pub mod Queue
pub mod Screen
pub mod Window
pub mod Input
