-- ===== src/Dialog.antt =====
-- dialog.go: dialogs and their manager.
pub mod State
pub mod Index
pub mod Sequence
