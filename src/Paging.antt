-- ===== src/Paging.antt =====
-- crates/page-table-generic: page tables over abstract entries and frames.
pub mod Config
mod Tests
pub mod Samples
pub mod Meta
pub mod Geometry
pub mod Frame
pub mod Translate
pub mod Map
pub mod Unmap
pub mod Walk
pub mod Release
