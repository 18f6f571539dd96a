-- ===== src/ServerConfig.antt =====
-- pkg/serverconfig: the table of users, its storage, and the SQL statements on it.
pub mod Crypt
pub mod Query
pub mod Config
pub mod Manager
pub mod Service
pub mod Accounts
pub mod Handler
pub mod Runs
