-- ===== src/Header.antt =====
-- headers.go: the typed headers.
pub mod Name
pub mod Address
pub mod Via
pub mod Auth
pub mod Fields
