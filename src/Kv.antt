-- ===== src/Kv.antt =====
-- The state machine, internal/kvstore.
pub mod Types
pub mod Number
pub mod Store
pub mod Strings
pub mod Hashes
pub mod Lists
pub mod SkipList
pub mod SortedSets
pub mod Expiry
pub mod Apply
pub mod Reader
pub mod Backup
