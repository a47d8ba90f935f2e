-- ===== src/Proxy.antt =====
-- proxy.go: the forking proxy.
pub mod Best
pub mod Forward
pub mod Hops
pub mod Fork
pub mod Verdict
pub mod Winner
pub mod InDialog
pub mod Legs
pub mod Initial
