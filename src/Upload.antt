-- ===== src/Upload.antt =====
-- Resumable uploads: worker/upload-session-store.ts and worker/upload-service.ts.
pub mod Row
pub mod Stored
pub mod PartList
pub mod Check
pub mod Statements
pub mod Encode
pub mod Run
pub mod Provider
pub mod Store
pub mod Rivals
pub mod Service
pub mod Tests
