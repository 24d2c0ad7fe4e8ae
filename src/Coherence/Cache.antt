-- ===== src/Coherence/Cache.antt =====
-- csrc/coherence/CoherenceProtocol.cpp: the pages that a node caches, and what it sends home.
pub mod Release
use mccl.Base.{
  ℕ, zero, suc, ◌==◌, ◌+◌, ◌-◌, ◌%◌, ◌^◌, Bool, true, false, not, ◌&&◌, Option, none, some, List,
  [], ◌∷◌, ◌++◌, if◌then◌else◌, find, put, erase,
}
use mccl.Dmem.Address.{GlobalAddress, pack}
use mccl.Coherence.Directory.{CoherenceState, uncached, shared, exclusive}
use mccl.Coherence.Node.{
  CoherenceOp, read_req, exclusive_req, writeback_data, Message, page_align_down, CachedPage,
  Effect, fences, drains, when, Node, Outcome, done, put_failed, null_source, M, ◌>>◌, inc64,
  advance_epoch, emit, send_message,
}

unfoldable pub find_cached : GlobalAddress → Node → Option CachedPage
find_cached page n = find (pack page) n.local_cache

unfoldable pub track_page : GlobalAddress → CoherenceState → ℕ → Node → Node
track_page page state epoch n = record n {
  local_cache =
      put (pack page) (record { gaddr = page; local_state = state; epoch = epoch; dirty = false })
        n.local_cache;
}

unfoldable pub untrack_page : GlobalAddress → Node → Node
untrack_page page n = record n { local_cache = erase (pack page) n.local_cache }

abbrev pub align : GlobalAddress → GlobalAddress
align addr = record addr { offset = page_align_down addr.offset }

-- A write through the pointer that `find_cached` returned.
unfoldable pub write_page_done : GlobalAddress → Node → Node
unfolding find_cached
write_page_done addr n = elim (find_cached (align addr) n) [
  | none ↦ n
  | some c ↦ elim c.local_state [
    | exclusive ↦ record n {
      local_cache = put (pack (align addr)) (record c { dirty = true }) n.local_cache;
    }
    | _ ↦ n
  ]
]

-- Whether the cached copy already gives the access.
abbrev pub is_hit : Bool → CachedPage → Bool
is_hit write c = elim c.local_state [ exclusive ↦ true | _ ↦ not write ]

abbrev pub needs_writeback : CachedPage → Bool
needs_writeback c = c.dirty && elim c.local_state [ exclusive ↦ true | _ ↦ false ]

-- The page after its data went home.
abbrev pub settled : CachedPage → CachedPage
settled c = record c { local_state = shared; dirty = false }

unfoldable pub acquire : M
acquire = emit drains >> advance_epoch

module _ (delivers : ℕ → Bool) where
  unfoldable pub read_page : GlobalAddress → Bool → M
  unfolding find_cached
  read_page addr write n =
      let page = align addr in
      let request = send_message delivers page.node_id (record {
        op = if write then exclusive_req else read_req;
        page_addr = page;
        epoch = n.global_epoch;
        sender_seq = 0;
      }) in
      elim (find_cached page n) [
        | none ↦ request n
        | some c ↦ if is_hit write c then (done, n) else request n
      ]

  -- `dmem_->put` of a page whose source is `dmem_->resolve(page.gaddr).local_ptr`: the page itself on its
  -- home node, and a null pointer on any other.
  abbrev pub put_page : GlobalAddress → M
  put_page page n =
      if delivers page.node_id
      then (if page.node_id == n.node_id then (done, n) else (null_source, n))
      else (put_failed, n)

  -- What `release` does for one page that needs it, but for the cache.
  unfoldable pub flush_page : CachedPage → M
  flush_page c n =
      let message : Message = record {
        op = writeback_data;
        page_addr = c.gaddr;
        epoch = n.global_epoch;
        sender_seq = 0;
      } in
      (put_page c.gaddr >> (advance_epoch >> send_message delivers c.gaddr.node_id message)) n

  -- The loop over the cache: what the rest of the cache becomes. The first failure ends it.
  unfoldable pub flush_pages : List (ℕ × CachedPage) → Node → Outcome × List (ℕ × CachedPage) × Node
  unfolding flush_page
  flush_pages [] n = (done, [], n)
  flush_pages ((k, c) ∷ cs) n =
      let keep = flush_pages cs n in
      let sent = flush_page c n in
      let next = flush_pages cs sent.1 in
      if needs_writeback c
      then elim sent.0 [
        | done ↦ (next.0, (k, settled c) ∷ next.1, next.2)
        | failure ↦ (failure, (k, c) ∷ cs, sent.1)
      ]
      else (keep.0, (k, c) ∷ keep.1, keep.2)

  unfoldable pub release : M
  unfolding flush_pages
  release n =
      let (o, cache, n') = flush_pages n.local_cache n in
      let finish : M = λ s. (o, s) in
      (finish >> (emit drains >> advance_epoch)) (record n' { local_cache = cache })

  -- The loop of `fence` over the peers `i`, `i + 1`, … of the next `k`.
  unfoldable pub fence_each : ℕ → ℕ → M
  fence_each zero i n = (done, n)
  fence_each (suc k) i n =
      let rest = fence_each k (i + 1) in (when (not (i == n.node_id)) (emit (fences i)) >> rest) n

  unfoldable pub fence : M
  unfolding fence_each
  fence n = (fence_each n.num_nodes 0 >> (emit drains >> advance_epoch)) n

  unfoldable pub send_message_with_data : ℕ → CoherenceOp → GlobalAddress → ℕ → M
  send_message_with_data target op page epoch n =
      send_message delivers target
        (record { op = op; page_addr = page; epoch = epoch; sender_seq = n.global_epoch }) n
