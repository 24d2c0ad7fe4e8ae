-- ===== src/Dmem/Manager.antt =====
-- csrc/dmem/DistributedMemoryManager.hpp and DistributedMemoryManager.cpp: registration, resolution and
-- the one-sided transfers. The NIC is a parameter: `keys` are the keys that `ibv_reg_mr` returned, or
-- none; `connected n` is `conn && conn->ok()` for node `n`; `accepts w` is what posting the work request
-- `w` returns. The copies and the posted requests are values in the order of the code.
pub mod Resolution
pub mod Chunking
use mccl.Base.{
  ℕ, zero, suc, ◌+◌, ◌-◌, ◌*◌, ◌/◌, ◌%◌, ◌^◌, min, Bool, true, false, not, ◌&&◌, ◌||◌, Option, none,
  some, List, [], ◌∷◌, ◌++◌, length, get_elem?, set, leb, ltb, ◌==◌, if◌then◌else◌,
}
use mccl.Dmem.Address.{GlobalAddress, MemoryRegion, no_region}
use mccl.Dmem.Catalog.{Entry, Catalog, upsert, remove, lookup}

pub record AddrResolution : Type 0 where
  pub is_local : Bool
  pub local_ptr : ℕ
  pub remote_addr : ℕ
  pub remote_rkey : ℕ
  pub local_lkey : ℕ
  pub length : ℕ

abbrev pub unresolved : AddrResolution
unresolved = record {
  is_local = false;
  local_ptr = 0;
  remote_addr = 0;
  remote_rkey = 0;
  local_lkey = 0;
  length = 0;
}

-- `pending` has the work requests of `pending_ops_`.
pub record MemoryManager : Type 0 where
  pub node_id : ℕ
  pub regions : List MemoryRegion
  pub catalog : Catalog
  pub next_region_id : ℕ
  pub next_wr_id : ℕ
  pub pending : List ℕ

-- `regions_.resize(n)` where it grows
unfoldable pub extend : ℕ → List MemoryRegion → List MemoryRegion
extend zero rs = rs
extend (suc n) [] = no_region ∷ extend n []
extend (suc n) (r ∷ rs) = r ∷ extend n rs

-- The entry of a region in the table and in the catalog.
unfoldable pub enter_region : ℕ → ℕ → ℕ → ℕ → ℕ → MemoryManager → MemoryManager
unfolding extend
enter_region base_addr length flags rkey lkey m =
    let id = m.next_region_id in
    let region : MemoryRegion = record {
      gaddr = record { node_id = m.node_id; region_id = id; offset = 0 };
      local_addr = base_addr;
      length = length;
      rkey = rkey;
      lkey = lkey;
      flags = flags;
    } in
    let entry : Entry = record {
      local_addr = base_addr;
      length = length;
      rkey = rkey;
      flags = flags;
      epoch = 1;
    } in
    record m {
      next_region_id = (id + 1) % 2 ^ 32;
      regions = set (extend (id + 1) m.regions) id region;
      catalog = upsert id entry m.catalog;
    }

-- `none` is an exception; it leaves the manager as it is.
unfoldable pub register_region :
    Option (ℕ × ℕ) → ℕ → ℕ → ℕ → MemoryManager → Option (ℕ × MemoryManager)
unfolding enter_region
register_region keys base_addr length flags m =
    if base_addr == 0 || length == 0 then none else elim keys [
      | none ↦ none
      | some (rkey, lkey) ↦ some (m.next_region_id, enter_region base_addr length flags rkey lkey m)
    ]

unfoldable pub unregister_region : ℕ → MemoryManager → MemoryManager
unregister_region id m =
    if ltb id (length m.regions)
    then record m { regions = set m.regions id no_region; catalog = remove id m.catalog }
    else m

-- The resolution of a local address, in the region with this number if there is one.
unfoldable pub resolve_local : GlobalAddress → Option MemoryRegion → AddrResolution
resolve_local addr none = unresolved
resolve_local addr (some r) =
    if ltb 0 r.length && ltb addr.offset r.length
    then record unresolved {
      is_local = true;
      local_ptr = (r.local_addr + addr.offset) % 2 ^ 64;
      local_lkey = r.lkey;
      length = r.length - addr.offset;
    }
    else unresolved

-- The resolution of a remote address, by its entry in the catalog. `lookup_remote` fills in the result
-- before the bounds are checked.
unfoldable pub resolve_remote : GlobalAddress → Option Entry → AddrResolution
resolve_remote addr none = unresolved
resolve_remote addr (some e) =
    if ltb addr.offset e.length
    then record unresolved {
      remote_addr = (e.local_addr + addr.offset) % 2 ^ 64;
      remote_rkey = e.rkey;
      length = e.length - addr.offset;
    }
    else record unresolved { remote_addr = e.local_addr; remote_rkey = e.rkey }

unfoldable pub resolve : GlobalAddress → MemoryManager → AddrResolution
unfolding resolve_local resolve_remote
resolve addr m =
    if addr.node_id == m.node_id
    then resolve_local addr (get_elem? m.regions addr.region_id)
    else resolve_remote addr (lookup addr.node_id addr.region_id m.catalog)

-- `kRdmaBufSize`
abbrev pub rdma_buf_size : ℕ
rdma_buf_size = 2 ^ 20

-- What a transfer does, in order. The NIC reads and writes the start of the one staging buffer.
pub data Action : Type 0 where
  -- `memcpy(staging_buf_.data(), source, length)`
  stages : (source length : ℕ) → Action
  -- `post_rdma_write` and `post_rdma_read` between the staging buffer and `remote_addr`
  writes : (remote_addr rkey length wr_id : ℕ) → Action
  reads : (remote_addr rkey length wr_id : ℕ) → Action
  polls : (wr_id : ℕ) → Action
  -- `memcpy(dst, staging_buf_.data(), length)`
  unstages : (dst length : ℕ) → Action

-- What a transfer did: whether it returned, and its actions.
pub record Transfer : Type 0 where
  pub returned : Bool
  pub actions : List Action
  pub next_wr_id : ℕ

abbrev pub next_wr : ℕ → ℕ
next_wr w = (w + 1) % 2 ^ 64

module _ (accepts : ℕ → Bool) (remote rkey source length : ℕ) where
  -- The loop over the chunks, with `remaining` bytes left. The first number bounds the rounds.
  unfoldable pub put_loop : ℕ → ℕ → ℕ → Transfer
  put_loop zero remaining w = record { returned = remaining == 0; actions = []; next_wr_id = w }
  put_loop (suc k) remaining w =
      let chunk = min remaining rdma_buf_size in
      let offset : ℕ = length - remaining in
      let rest = put_loop k (remaining - chunk) (next_wr w) in
      let copy = stages (source + offset) chunk in
      let post = writes ((remote + offset) % 2 ^ 64) rkey chunk w in
      if remaining == 0
      then record { returned = true; actions = []; next_wr_id = w }
      else if accepts w
      then record rest { actions = copy ∷ (post ∷ rest.actions) }
      else record { returned = false; actions = copy ∷ []; next_wr_id = next_wr w }

-- The rounds that `length` bytes take, and one more.
abbrev pub rounds : ℕ → ℕ
rounds length = length / rdma_buf_size + 1

-- `put_chunked`, on a node that is connected: only a transfer of one chunk is entered in `pending`.
unfoldable pub put_chunked : (ℕ → Bool) → ℕ → ℕ → ℕ → ℕ → MemoryManager → Transfer × MemoryManager
unfolding put_loop
put_chunked accepts remote rkey source length m =
    let w = m.next_wr_id in
    let copy = stages source length in
    let post = writes remote rkey length w in
    let many = put_loop accepts remote rkey source length (rounds length) length w in
    let used : MemoryManager = record m { next_wr_id = next_wr w } in
    if leb length rdma_buf_size
    then if accepts w
      then (
        record { returned = true; actions = copy ∷ (post ∷ []); next_wr_id = next_wr w },
        record used { pending = m.pending ++ (w ∷ []) },
      )
      else (record { returned = false; actions = copy ∷ []; next_wr_id = next_wr w }, used)
    else (many, record m { next_wr_id = many.next_wr_id })

-- What `put` does: it throws before anything is sent, copies locally, or sends.
pub data PutResult : Type 0 where
  refused : PutResult
  copied : (to source length : ℕ) → PutResult
  sent : Transfer → PutResult

unfoldable pub put :
    (ℕ → Bool) → (ℕ → Bool) → ℕ → GlobalAddress → ℕ → ℕ → MemoryManager → PutResult × MemoryManager
unfolding resolve put_chunked
put connected accepts target dst source length m =
    let res = resolve dst m in
    let go = put_chunked accepts res.remote_addr res.remote_rkey source length m in
    if res.is_local && not (target == m.node_id)
    then (refused, m)
    else if ltb res.length length
    then (refused, m)
    else if res.remote_rkey == 0 && not res.is_local
    then (refused, m)
    else if res.is_local
    then (copied res.local_ptr source length, m)
    else if connected target
    then (sent go.0, go.1)
    else (refused, m)

module _ (accepts : ℕ → Bool) (remote rkey dst length : ℕ) where
  -- The loop of `get_chunked`: what `poll_completion` returns is not looked at.
  unfoldable pub get_loop : ℕ → ℕ → ℕ → Transfer
  get_loop zero remaining w = record { returned = remaining == 0; actions = []; next_wr_id = w }
  get_loop (suc k) remaining w =
      let chunk = min remaining rdma_buf_size in
      let offset : ℕ = length - remaining in
      let rest = get_loop k (remaining - chunk) (next_wr w) in
      let post = reads ((remote + offset) % 2 ^ 64) rkey chunk w in
      let copy = unstages (dst + offset) chunk in
      if remaining == 0
      then record { returned = true; actions = []; next_wr_id = w }
      else if accepts w
      then record rest { actions = post ∷ (polls w ∷ (copy ∷ rest.actions)) }
      else record { returned = false; actions = []; next_wr_id = next_wr w }

-- `get_chunked`, on a node that is connected.
unfoldable pub get_chunked : (ℕ → Bool) → ℕ → ℕ → ℕ → ℕ → MemoryManager → Transfer × MemoryManager
unfolding get_loop
get_chunked accepts remote rkey dst length m =
    let t = get_loop accepts remote rkey dst length (rounds length) length m.next_wr_id in
    (t, record m { next_wr_id = t.next_wr_id })

-- `get`: its results are those of `put`, where `copied` names the local destination first.
unfoldable pub get :
    (ℕ → Bool) → (ℕ → Bool) → ℕ → GlobalAddress → ℕ → ℕ → MemoryManager → PutResult × MemoryManager
unfolding resolve get_chunked
get connected accepts target src dst length m =
    let res = resolve src m in
    let go = get_chunked accepts res.remote_addr res.remote_rkey dst length m in
    if ltb res.length length
    then (refused, m)
    else if res.remote_rkey == 0 && not res.is_local
    then (refused, m)
    else if res.is_local
    then (copied dst res.local_ptr length, m)
    else if connected target
    then (sent go.0, go.1)
    else (refused, m)
