-- ===== src/Api.antt =====
-- internal/api: the HTTP handlers as computations on the tables.
pub mod Token
pub mod Server
pub mod Auth
pub mod Naming
pub mod Accounts
