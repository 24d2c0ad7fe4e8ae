-- ===== src/Coherence.antt =====
-- csrc/coherence: the page directory of a home node and the coherence protocol.
pub mod Directory
pub mod Node
pub mod Protocol
pub mod Cache
mod Tests
