-- ===== src/Collective.antt =====
-- csrc/backend/ProcessGroupMCCL.cpp: the collectives of a process group, for all ranks at once.
-- Tensors are the bytes or the chunks that they hold; staging them from and to the GPU, the
-- synchronisation with its streams and the checks of a tensor's device are left out.
pub mod Choice
pub mod Exchange
pub mod ReduceScatter
pub mod Lists
pub mod Messages
mod Tests
