-- ===== src/Tests.antt =====
-- The theorems at concrete inputs, and runs of the code.
pub mod Bitmaps
pub mod Booting
pub mod Allocator
pub mod Memory
pub mod Devices
pub mod Images
pub mod Paging
pub mod Screens
pub mod Loading
pub mod Heap
pub mod Processors
pub mod Spaces
