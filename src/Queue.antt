-- ===== src/Queue.antt =====
-- The upload queue of the web interface: ui/features/uploads/upload-reducer.ts.
pub mod Task
pub mod Reducer
pub mod PartSet
pub mod Bound
pub mod Tests
