-- ===== src/Runtime.antt =====
-- The distributed runtime's own arithmetic and bookkeeping: csrc/runtime/ShaderDispatch.hpp, the agents
-- of csrc/runtime/DistributedMetalRuntime.cpp and csrc/runtime/Metrics.cpp.
pub mod Dispatch
pub mod Agents
pub mod Metrics
mod Tests
