-- ===== src/Share.antt =====
-- Shares: worker/share-store.ts and worker/share-policy.ts.
pub mod Row
pub mod Run
pub mod Store
pub mod Limit
pub mod Tests
