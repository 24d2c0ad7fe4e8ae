-- ===== src/Runtime/Tests.antt =====
-- Runs of csrc/runtime/ShaderDispatch.hpp, csrc/runtime/DistributedMetalRuntime.cpp and
-- csrc/runtime/Metrics.cpp.
use mccl.Base.{zero, suc, ◌≡◌, ◌≢◌, refl, true, false, List, [], ◌∷◌, arith, find}
use mccl.Coherence.Node.{Node}
use mccl.Coherence.Protocol.Sending.{HasBuffers}
use mccl.Coherence.Protocol.BarrierAll.{enter_message}
use mccl.Runtime.Dispatch.{data_parallel, Tiles, data_parallel-Tiles}
use mccl.Runtime.Agents.{Runtime, Work, returns, dispatch_data_parallel}
use mccl.Runtime.Agents.Dispatching.{dispatch_data_parallel_lem}

data_parallel-Tiles_example : Tiles 10 4 2 0 (data_parallel 10 4 2 (5 ∷ 6 ∷ 7 ∷ []))
data_parallel-Tiles_example =
    data_parallel-Tiles 10 4 2 (5 ∷ 6 ∷ 7 ∷ []) (omega arith) (omega arith) (omega arith)
      (omega arith)

-- Nodes 1 and 3 are connected.
abbrev runtime : Runtime
runtime = record { socks = (1, 7) ∷ ((3, 8) ∷ []); node_ids = 1 ∷ (3 ∷ []); libraries = [] }

-- Node 1 reads a buffer of node 2.
abbrev works : List Work
works =
    record {
      node_id = 1;
      grid_size = 100;
      bindings =
          record {
            buffer = record { node_id = 2; region_id = 4; offset = 0 };
            is_input = true;
            is_output = false;
          }
          ∷ [];
    }
    ∷ (record { node_id = 2; grid_size = 50; bindings = [] } ∷ [])

-- The head of three nodes, of which node 1 has entered the barrier.
abbrev head : Node
head = record {
  node_id = 0;
  is_head = true;
  num_nodes = 3;
  msg_bufs = (1, 11) ∷ (2, 12) ∷ [];
  directory = [];
  local_cache = [];
  global_epoch = 5;
  barrier_count = 1;
  trace = [];
}

head-HasBuffers : HasBuffers head
unfolding find
head-HasBuffers zero h apart = absurd (apart refl)
head-HasBuffers (suc zero) h apart = (11, refl)
head-HasBuffers (suc (suc zero)) h apart = (12, refl)
head-HasBuffers (suc (suc (suc i))) h apart = absurd (omega arith)

dispatch_data_parallel_lem_example :
    let (e, events, m) =
      dispatch_data_parallel (λ i. true) ((enter_message 5, 2) ∷ []) [] runtime works head in
    (events ≡ []) × (e ≢ returns)
dispatch_data_parallel_lem_example =
    dispatch_data_parallel_lem (λ i. true) ((enter_message 5, 2) ∷ []) [] runtime works head
      (λ i. refl) (omega arith) (omega arith) head-HasBuffers (omega arith)
