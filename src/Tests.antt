-- ===== src/Tests.antt =====
-- Runs of the program's parts on concrete inputs.
pub mod Data
pub mod Stores
pub mod Workflows
pub mod Engine
pub mod Control
pub mod Disks
pub mod Codecs
pub mod Accounts
