-- ===== src/Mesh.antt =====
-- csrc/backend/PeerMesh.cpp: how ranks find each other's addresses, and the loops that send and receive
-- whole messages over sockets. A string is the list of its characters' codes; sockets, timeouts and the
-- sort of the addresses are left out.
pub mod Streams
pub mod Endpoint
pub mod Interfaces
mod Tests
