-- ===== src/Upload/Service.antt =====
-- worker/upload-service.ts.
pub mod Errors
pub mod Parts
pub mod Tiling
pub mod Session
pub mod PartUpload
pub mod Finish
pub mod Abort
pub mod Create
pub mod Safety
pub mod Sound
