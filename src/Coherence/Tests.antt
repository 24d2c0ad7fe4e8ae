-- ===== src/Coherence/Tests.antt =====
-- Runs of csrc/coherence on a home node with three nodes.
use mccl.Base.{
  ℕ, zero, suc, ◌≡◌, ◌↔◌, refl, inl, Bool, true, none, some, [], ◌∷◌, ◌++◌, arith, All, find, ltb,
  ◌==◌, if◌then◌else◌,
}
use mccl.Dmem.Address.{GlobalAddress}
use mccl.Coherence.Directory.{exclusive, entry_at, has_sharer}
use mccl.Coherence.Node.{
  Message, exclusive_grant, read_req, exclusive_req, CachedPage, Node, sends, done, inc64, entry_of,
}
use mccl.Coherence.Protocol.{about, handle_message, handle_exclusive_req}
use mccl.Coherence.Protocol.Sending.{HasBuffers}
use mccl.Coherence.Protocol.Frame.{DirectoryIsValid, handle_message-IsValid}
use mccl.Coherence.Protocol.BarrierAll.{enter_message, head_barrier, head_barrier_lem}
use mccl.Coherence.Protocol.Barrier.{enter, releases, enter_lem}
use mccl.Coherence.Protocol.Exclusive.{
  invalidations, writeback_requests, OwnerReachable, handle_exclusive_req_lem,
}
use mccl.Coherence.Cache.{release}
use mccl.Coherence.Cache.Release.{IsClean, release_lem}

abbrev page : GlobalAddress
page = record { node_id = 0; region_id = 4; offset = 65536 }

abbrev other : GlobalAddress
other = record { node_id = 0; region_id = 4; offset = 0 }

abbrev cached : CachedPage
cached = record {
  gaddr = record page { node_id = 1 };
  local_state = exclusive;
  epoch = 3;
  dirty = true;
}

-- The head, which has cached a page of node 1 and written to it.
abbrev head : Node
head = record {
  node_id = 0;
  is_head = true;
  num_nodes = 3;
  msg_bufs = (1, 11) ∷ (2, 12) ∷ [];
  directory = [];
  local_cache = (9, cached) ∷ [];
  global_epoch = 5;
  barrier_count = 0;
  trace = [];
}

abbrev all_open : ℕ → Bool
all_open i = true

abbrev request : Message
request = record { op = exclusive_req; page_addr = page; epoch = 5; sender_seq = 0 }

abbrev read : Message
read = record { op = read_req; page_addr = page; epoch = 6; sender_seq = 0 }

head-HasBuffers : HasBuffers head
unfolding find
head-HasBuffers zero h apart = absurd (apart refl)
head-HasBuffers (suc zero) h apart = (11, refl)
head-HasBuffers (suc (suc zero)) h apart = (12, refl)
head-HasBuffers (suc (suc (suc i))) h apart = absurd (omega arith)

head-IsValid : DirectoryIsValid head.directory
unfolding find entry_at
head-IsValid r p = record { small = omega arith; held = inl refl }

owner-reachable : OwnerReachable request 1 head
unfolding find entry_at
owner-reachable = inl refl

buffer_1 : find 1 head.msg_bufs ≡ some 11
unfolding find
buffer_1 = refl

no_buffer_0 : find 0 head.msg_bufs ≡ none
unfolding find
no_buffer_0 = refl

handle_message-IsValid_example :
    DirectoryIsValid (handle_message all_open request 1 head).1.directory
handle_message-IsValid_example =
    handle_message-IsValid all_open request 1 head (omega arith) head-IsValid

enter_lem_example : enter all_open 2 head ≡ (
  done,
  if ltb 2 2
      then record head { barrier_count = 2 }
      else record head { barrier_count = 0; global_epoch = inc64 5; trace = [] ++ releases head },
)
enter_lem_example =
    enter_lem all_open (λ i. refl) 2 head (omega arith) (omega arith) head-HasBuffers refl
      (omega arith)

handle_exclusive_req_lem_example :
    let e = entry_of request head in
    let (o, n') = handle_exclusive_req all_open request 1 head in
    let e' = entry_of request n' in
    (o ≡ done)
    × (n'.trace
        ≡ (([] ++ invalidations head e) ++ writeback_requests request 1 e)
          ++ (sends 1 (about exclusive_grant request (inc64 e.epoch)) ∷ []))
    × (e'.state ≡ exclusive)
    × (e'.epoch ≡ inc64 e.epoch)
    × (has_sharer e' 2 ≡ (1 == 2))
    × (e'.exclusive_owner ≡ 0)
handle_exclusive_req_lem_example =
    handle_exclusive_req_lem all_open (λ i. refl) request 1 2 11 head head-HasBuffers (omega arith)
      (omega arith) buffer_1 owner-reachable

release_lem_example :
    let (o, n') = release all_open head in
    (n'.local_cache ≡ (9, cached) ∷ []) × ((o ≡ done) ↔ All IsClean ((9, cached) ∷ []))
release_lem_example = release_lem all_open head no_buffer_0

head_barrier_lem_example :
    head_barrier all_open ((enter_message 1, 1) ∷ ((enter_message 2, 2) ∷ [])) head ≡ none
head_barrier_lem_example =
    head_barrier_lem all_open (λ i. refl) head (omega arith) (omega arith) head-HasBuffers
      ((enter_message 1, 1) ∷ ((enter_message 2, 2) ∷ [])) (omega arith)
