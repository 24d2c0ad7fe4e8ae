-- ===== src/Coherence/Cache/Release.antt =====
-- What `release` and `read_page` of csrc/coherence/CoherenceProtocol.cpp leave in the cache.
use mccl.Base.{
  ℕ, ◌≡◌, ◌≢◌, ◌↔◌, refl, sym, ◌∙◌, ap, Bool, Bool-cases, inl, inr, false, none, List, [], ◌∷◌,
  arith, ◌==◌, find, find-put, All,
}
use mccl.Dmem.Address.{GlobalAddress, pack, pack_ids}
use mccl.Coherence.Directory.{CoherenceState}
use mccl.Coherence.Node.{CachedPage, Node, done, send_message}
use mccl.Coherence.Cache.{
  find_cached, track_page, needs_writeback, flush_page, flush_pages, release, read_page,
}

-- The page needs no writeback.
abbrev pub IsClean : ℕ × CachedPage → Type 0
IsClean p = needs_writeback p.1 ≡ false

module _ (delivers : ℕ → Bool) where
  flush_page-fails :
      (c : CachedPage) (n : Node)
      → find n.node_id n.msg_bufs ≡ none
      → (flush_page delivers c n).0 ≢ done
  unfolding flush_page send_message
  flush_page-fails c n no_buffer e = elim (Bool-cases (c.gaddr.node_id == n.node_id)) [
    | inl home ↦
        let same : c.gaddr.node_id ≡ n.node_id = ground arith in
        let gone : find c.gaddr.node_id n.msg_bufs ≡ none =
          ap (λ i. find i n.msg_bufs) same ∙ no_buffer in
        ground (arith, e, home, gone)
    | inr away ↦ ground (arith, e, away)
  ]

  flush_pages_lem :
      (ps : List (ℕ × CachedPage)) (n : Node)
      → find n.node_id n.msg_bufs ≡ none
      → ((flush_pages delivers ps n).1 ≡ ps)
        × ((flush_pages delivers ps n).0 ≡ done → All IsClean ps)
        × (All IsClean ps → (flush_pages delivers ps n).0 ≡ done)
  unfolding flush_pages
  flush_pages_lem [] n h = (refl, λ e. tt, λ c. refl)
  flush_pages_lem ((k, c) ∷ ps) n h =
      let rest = flush_pages_lem ps n h in
      let fails = flush_page-fails c n h in
      elim (Bool-cases (needs_writeback c)) [
        | inl dirty ↦ (
          ground (arith, dirty, fails),
          λ e. absurd (ground (arith, dirty, fails, e)),
          λ clean. absurd (ground (arith, dirty, clean.0)),
        )
        | inr clean ↦
            rw clean (ap (λ qs. (k, c) ∷ qs) rest.0, λ e. (refl, rest.1 e), λ all. rest.2 all.1)
      ]

  -- On a node without a message buffer of its own, `release` ends exactly if no page of the cache is dirty
  -- and exclusive; else it throws or copies from a null pointer. It leaves the cache as it is in both
  -- cases, so such a page stays dirty.
  pub release_lem :
      (n : Node)
      → find n.node_id n.msg_bufs ≡ none
      → let (o, n') = release delivers n in
        (n'.local_cache ≡ n.local_cache) × ((o ≡ done) ↔ All IsClean n.local_cache)
  unfolding release
  release_lem n h =
      let flushed = flush_pages_lem n.local_cache n h in
      let ended : (release delivers n).0 ≡ (flush_pages delivers n.local_cache n).0 =
        ground arith in
      (
        ground (arith, flushed.0),
        (λ e. flushed.1 (sym ended ∙ e), λ clean. ended ∙ flushed.2 clean),
      )

-- The cache takes all pages of a region for one: after a page was cached, a read of any page of its
-- region is taken for a hit, and nothing is requested.
pub read_page_alias :
    (delivers : ℕ → Bool) (a b : GlobalAddress) (state : CoherenceState) (epoch : ℕ) (n : Node)
    → a.node_id ≡ b.node_id
    → a.region_id ≡ b.region_id
    → read_page delivers b false (track_page a state epoch n) ≡ (done, track_page a state epoch n)
unfolding read_page track_page find_cached pack
read_page_alias delivers a b state epoch n same_node same_region =
    let key : pack_ids a.node_id a.region_id ≡ pack_ids b.node_id b.region_id = cc in
    let cached : CachedPage = record {
      gaddr = a;
      local_state = state;
      epoch = epoch;
      dirty = false;
    } in
    ground (
      arith,
      key,
      find-put (pack_ids a.node_id a.region_id) (pack_ids b.node_id b.region_id) cached
          n.local_cache,
    )
