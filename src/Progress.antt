-- ===== src/Progress.antt =====
-- How the backend's operations are run: the work objects of csrc/backend/WorkMCCL.cpp, the queue of
-- csrc/backend/Progress.cpp that runs them, and the bounded engine of csrc/runtime/ProgressEngine.cpp.
pub mod Work
pub mod Queue
pub mod Engine
mod Tests
