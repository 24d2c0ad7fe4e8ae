-- ===== src/Mesh/Tests.antt =====
-- Runs of csrc/backend/PeerMesh.cpp.
use mccl.Base.{ℕ, ◌≡◌, List, [], ◌∷◌}
use mccl.Collective.Messages.{recv_bytes}
use mccl.Mesh.Streams.{read_all, joined, of_stream, of_stream-read_all}

abbrev segments : List (List ℕ)
segments = (1 ∷ 2 ∷ []) ∷ (3 ∷ 4 ∷ 5 ∷ []) ∷ []

of_stream-read_all_example : of_stream (read_all 4 segments) ≡ recv_bytes 4 (joined segments)
of_stream-read_all_example = of_stream-read_all 4 segments (tt, (tt, tt))
