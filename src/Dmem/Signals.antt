-- ===== src/Dmem/Signals.antt =====
-- `put_with_imm` and `fence` of csrc/dmem/DistributedMemoryManager.cpp. The NIC is a parameter as in
-- Dmem/Manager; neither of the two enters its request in `pending_ops_`.
use mccl.Base.{
  ℕ, ◌+◌, ◌-◌, ◌%◌, ◌^◌, ◌≤◌, ◌<◌, ◌≡◌, refl, Bool, true, false, Option, none, some, [], ◌∷◌, arith,
  ltb, ◌==◌, if◌then◌else◌,
}
use native.Mathlib.Nat.{mod-eq_of_lt}
use mccl.Dmem.Address.{GlobalAddress}
use mccl.Dmem.Catalog.{Entry, lookup}
use mccl.Dmem.Manager.{
  MemoryManager, resolve_remote, resolve, rdma_buf_size, stages, writes, next_wr, PutResult,
  refused, sent,
}

unfoldable pub put_with_imm :
    (ℕ → Bool) → (ℕ → Bool) → ℕ → GlobalAddress → ℕ → ℕ → MemoryManager → PutResult × MemoryManager
unfolding resolve
put_with_imm connected accepts target dst source length m =
    let res = resolve dst m in
    let w = m.next_wr_id in
    let used : MemoryManager = record m { next_wr_id = next_wr w } in
    let copy = stages source length in
    let post = writes res.remote_addr res.remote_rkey length w in
    if res.is_local
    then (refused, m)
    else if ltb rdma_buf_size length
    then (refused, m)
    else if ltb res.length length
    then (refused, m)
    else if connected target
    then (if accepts w
        then (
          sent (record { returned = true; actions = copy ∷ (post ∷ []); next_wr_id = next_wr w }),
          used,
        )
        else (
          sent (record { returned = false; actions = copy ∷ []; next_wr_id = next_wr w }),
          used,
        ))
    else (refused, m)

-- The number of the request, 0 without a connection, or none if posting throws.
unfoldable pub fence : (ℕ → Bool) → (ℕ → Bool) → ℕ → MemoryManager → Option ℕ × MemoryManager
fence connected accepts target m =
    let w = m.next_wr_id in
    let used : MemoryManager = record m { next_wr_id = next_wr w } in
    if connected target then (if accepts w then (some w, used) else (none, used)) else (some 0, m)

-- A put with immediate data to another node is sent as one request into the region of the catalog's
-- entry. The conditions are that the entry is there and does not wrap around, that the bytes lie in its
-- region and fit the staging buffer, and that the node is connected and accepts the request.
pub put_with_imm_lem :
    (connected accepts : ℕ → Bool) (target source len : ℕ) (dst : GlobalAddress) (m : MemoryManager)
    (e : Entry)
    → (dst.node_id == m.node_id) ≡ false
    → lookup dst.node_id dst.region_id m.catalog ≡ some e
    → e.local_addr + e.length < 2 ^ 64
    → dst.offset + len ≤ e.length
    → 0 < len
    → len ≤ rdma_buf_size
    → connected target ≡ true
    → accepts m.next_wr_id ≡ true
    → (put_with_imm connected accepts target dst source len m).0
      ≡ sent (record {
        returned = true;
        actions =
            stages source len ∷ (writes (e.local_addr + dst.offset) e.rkey len m.next_wr_id ∷ []);
        next_wr_id = next_wr m.next_wr_id;
      })
unfolding put_with_imm resolve resolve_remote
put_with_imm_lem connected accepts target source len dst m e remote found room fits some_bytes small
      on posts =
    let within : ltb dst.offset e.length ≡ true = ground arith in
    let address : (e.local_addr + dst.offset) % 2 ^ 64 ≡ e.local_addr + dst.offset =
      mod-eq_of_lt (omega arith) in
    let staged : ltb (2 ^ 20) len ≡ false = ground arith in
    let inside : ltb (e.length - dst.offset) len ≡ false = ground arith in
    rw remote (rw found (rw within (rw staged (rw inside (rw on (rw posts (rw address refl)))))))
