-- ===== src/Dmem/Catalog/Publish.antt =====
-- `serialize_into` of csrc/dmem/MemoryCatalog.cpp, and what a peer that reads the buffer learns.
use mccl.Base.{
  ℕ, ◌+◌, ◌*◌, ◌^◌, ◌≤◌, ◌<◌, max, ◌≡◌, refl, ◌∙◌, ◌⊎◌, none, some, [], ◌∷◌, arith, find, Memory,
}
use mccl.Dmem.Address.{pack_ids}
use mccl.Dmem.Catalog.{
  Entry, Entries, Catalog, catalog_key, serialize, deserialize, wire_size, max_regions_per_node,
  lookup, key_region, store_entries, serialize_into, deserialize_from,
}
use mccl.Dmem.Catalog.Keys.{Keyed}
use mccl.Dmem.Catalog.Entries.{lookup-deserialize_from}
use mccl.Dmem.Catalog.Wire.{
  EntryFits, deserialize-serialize_entry, deserialize-serialize_apart, serialize_outside,
}

store_entries-le :
    (buf max_len : ℕ) (es : Entries) (m : Memory) (w : ℕ)
    → w ≤ max_len
    → (store_entries buf max_len es m w).1 ≤ max_len
unfolding store_entries
store_entries-le buf max_len [] m w h = h
store_entries-le buf max_len ((k, e) ∷ es) m w h =
    let offset : ℕ = key_region k * wire_size in
    ground (
      arith,
      store_entries-le buf max_len es m w h,
      store_entries-le buf max_len es (serialize e m (buf + offset)) (max w (offset + wire_size)),
    )

store_entries-ge :
    (buf max_len : ℕ) (es : Entries) (m : Memory) (w : ℕ) → w ≤ (store_entries buf max_len es m w).1
unfolding store_entries
store_entries-ge buf max_len [] m w = omega arith
store_entries-ge buf max_len ((k, e) ∷ es) m w =
    let offset : ℕ = key_region k * wire_size in
    ground (
      arith,
      store_entries-ge buf max_len es m w,
      store_entries-ge buf max_len es (serialize e m (buf + offset)) (max w (offset + wire_size)),
    )

-- A slot whose region has no entry left is not written again.
store_entries_other :
    (buf max_len r : ℕ) (es : Entries) (m : Memory) (w : ℕ)
    → r < 2 ^ 32
    → Keyed es
    → find (catalog_key 0 r) es ≡ none
    → deserialize (store_entries buf max_len es m w).0 (buf + r * wire_size)
      ≡ deserialize m (buf + r * wire_size)
unfolding store_entries find pack_ids
store_entries_other buf max_len r [] m w hr v miss = refl
store_entries_other buf max_len r ((k, e) ∷ es) m w hr v miss =
    let offset : ℕ = key_region k * wire_size in
    ground (
      arith,
      store_entries_other buf max_len r es m w hr v.3,
      store_entries_other buf max_len r es (serialize e m (buf + offset))
          (max w (offset + wire_size)) hr v.3,
      deserialize-serialize_apart e m (buf + offset) (buf + r * wire_size),
    )

-- The slot of a region of this node holds its entry.
store_entries_slot :
    (buf max_len r : ℕ) (es : Entries) (m : Memory) (w : ℕ) (e : Entry)
    → r < max_regions_per_node
    → max_regions_per_node * wire_size ≤ max_len
    → Keyed es
    → EntryFits e
    → find (catalog_key 0 r) es ≡ some e
    → (deserialize (store_entries buf max_len es m w).0 (buf + r * wire_size) ≡ e)
      × ((r + 1) * wire_size ≤ (store_entries buf max_len es m w).1)
unfolding store_entries find pack_ids
store_entries_slot buf max_len r [] m w e hr hl v fits hit = cc
store_entries_slot buf max_len r ((k, f) ∷ es) m w e hr hl v fits hit =
    let offset : ℕ = key_region k * wire_size in
    let m' : Memory = serialize f m (buf + offset) in
    let w' : ℕ = max w (offset + wire_size) in
    ground (
      arith,
      store_entries_slot buf max_len r es m w e hr hl v.3 fits,
      store_entries_slot buf max_len r es m' w' e hr hl v.3 fits,
      store_entries_other buf max_len r es m' w' (omega arith) v.3,
      store_entries-ge buf max_len es m' w',
      deserialize-serialize_entry e m (buf + offset) fits,
    )

store_entries_outside :
    (buf max_len : ℕ) (es : Entries) (m : Memory) (w i : ℕ)
    → ((i < buf) ⊎ (buf + max_len ≤ i))
    → (store_entries buf max_len es m w).0 i ≡ m i
unfolding store_entries
store_entries_outside buf max_len [] m w i h = refl
store_entries_outside buf max_len ((k, e) ∷ es) m w i h =
    let offset : ℕ = key_region k * wire_size in
    ground (
      arith,
      store_entries_outside buf max_len es m w i h,
      store_entries_outside buf max_len es (serialize e m (buf + offset))
          (max w (offset + wire_size)) i h,
      serialize_outside e m (buf + offset) i,
    )

-- `serialize_into` reports at most `max_len` bytes.
pub serialize_into-le :
    (m : Memory) (buf max_len : ℕ) (c : Catalog) → (serialize_into m buf max_len c).1 ≤ max_len
unfolding serialize_into
serialize_into-le m buf max_len c = store_entries-le buf max_len c.entries m 0 (omega arith)

-- `serialize_into` changes no byte of memory outside the `max_len` bytes at `buf`, whatever the
-- catalog holds.
pub serialize_into_outside :
    (m : Memory) (buf max_len : ℕ) (c : Catalog) (i : ℕ)
    → ((i < buf) ⊎ (buf + max_len ≤ i))
    → (serialize_into m buf max_len c).0 i ≡ m i
unfolding serialize_into
serialize_into_outside m buf max_len c i h = store_entries_outside buf max_len c.entries m 0 i h

-- A peer that loads what `serialize_into` wrote into a buffer of at least 8192 bytes (and less than
-- 2^37) finds, under the number of the node that wrote it, each entry of that node whose region is
-- below 256 and whose fields fit their widths.
pub deserialize_from-serialize_into :
    (m : Memory) (buf max_len src r : ℕ) (c peer : Catalog) (e : Entry)
    → r < max_regions_per_node
    → max_regions_per_node * wire_size ≤ max_len
    → max_len < 2 ^ 37
    → Keyed c.entries
    → EntryFits e
    → lookup 0 r c ≡ some e
    → let (m', written) = serialize_into m buf max_len c in
      lookup src r (deserialize_from m' buf written src peer) ≡ some e
unfolding serialize_into lookup
deserialize_from-serialize_into m buf max_len src r c peer e hr hl hm v fits hit =
    let out = store_entries buf max_len c.entries m 0 in
    let slot = store_entries_slot buf max_len r c.entries m 0 e hr hl v fits hit in
    let below = store_entries-le buf max_len c.entries m 0 (omega arith) in
    lookup-deserialize_from out.0 buf out.1 src src r peer (omega arith) (omega arith)
    ∙ ground (arith, slot)
