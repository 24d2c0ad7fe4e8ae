-- ===== src/Allreduce.antt =====
-- csrc/backend/AllreduceAlgos.cpp: how the ranks of a process group reduce a tensor together.
pub mod Chunks
pub mod Fold
pub mod Ring
pub mod Butterfly
pub mod Tree
mod Tests
