-- ===== src/FileSystem.antt =====
-- The native file system: the tables entries and storage_recovery_operations of worker/db.ts, the
-- bucket of blobs, and worker/file-system.ts.
pub mod Row
pub mod Tree
pub mod Entries
pub mod Recovery
pub mod Store
pub mod Db
pub mod Ancestors
pub mod Errors
pub mod Api
pub mod Edit
pub mod Recover
pub mod Remove
pub mod Copy
pub mod Receive
pub mod Listing
pub mod Rivals
pub mod Whole
pub mod Tests
pub mod Names
