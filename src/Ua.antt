-- ===== src/Ua.antt =====
-- ua.go: the user agent.
pub mod Inbound
pub mod Bye
pub mod Fault
pub mod Digest
pub mod Requests
pub mod Invite
pub mod Hangup
