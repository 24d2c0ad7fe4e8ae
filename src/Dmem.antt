-- ===== src/Dmem.antt =====
-- csrc/dmem: global addresses, the memory catalog and the distributed memory manager.
pub mod Address
pub mod Catalog
pub mod Manager
pub mod Completions
pub mod Signals
mod Tests
