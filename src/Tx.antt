-- ===== src/Tx.antt =====
-- transaction.go: the transactions and their manager.
pub mod Types
pub mod Client
pub mod Server
pub mod Manager
