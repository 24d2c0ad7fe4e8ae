-- ===== src/Transport.antt =====
-- csrc/transport/rdma: the queue-pair connections and the registered buffers. The driver behind the table
-- of verbs is a parameter: its answers are arguments, and the calls made of it are kept in a ledger.
pub mod Ledger
pub mod Slots
pub mod Connection
pub mod Peers
pub mod Destination
pub mod Buffer
mod Tests
