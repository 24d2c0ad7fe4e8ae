-- ===== src/Dmem/Catalog/Entries.antt =====
-- What each operation of csrc/dmem/MemoryCatalog.cpp does to every entry.
use mccl.Base.{
  ℕ, zero, suc, ◌+◌, ◌*◌, ◌/◌, ◌%◌, ◌^◌, ◌≤◌, ◌<◌, ◌≡◌, ◌∙◌, ap, ◌&&◌, none, some, arith, leb, ltb,
  ◌==◌, if◌then◌else◌, find, find-put, find-erase_if, put, Memory,
}
use mccl.Dmem.Address.{pack_ids, pack_ids_test}
use mccl.Dmem.Catalog.{
  Entry, Entries, Catalog, catalog_key, upsert, remove, remove_node, deserialize, wire_size,
  load_entries, deserialize_from, lookup,
}

-- After `upsert` the region's entry under node 0 is the new one, and every other entry, of any node,
-- is as before.
pub lookup-upsert :
    (n r q : ℕ) (e : Entry) (c : Catalog)
    → r < 2 ^ 32
    → q < 2 ^ 32
    → lookup n r (upsert q e c) ≡ (if 0 == n && q == r then some e else lookup n r c)
unfolding lookup upsert
lookup-upsert n r q e c hr hq =
    find-put (catalog_key 0 q) (catalog_key n r) e c.entries
    ∙ ap (λ b. if b then some e else find (catalog_key n r) c.entries) (pack_ids_test 0 n q r hq hr)

-- After `remove` the region has no entry under node 0, and every other entry is as before.
pub lookup-remove :
    (n r q : ℕ) (c : Catalog)
    → r < 2 ^ 32
    → q < 2 ^ 32
    → lookup n r (remove q c) ≡ (if n == 0 && r == q then none else lookup n r c)
unfolding lookup remove
lookup-remove n r q c hr hq =
    find-erase_if _ (catalog_key n r) c.entries
    ∙ ap (λ b. if b then none else find (catalog_key n r) c.entries) (pack_ids_test n 0 r q hr hq)

-- `remove_node` masks the 16 low bits of the keys, where the node is not: it removes the node's entry
-- for region 0, and every other entry, of that node too, is as before.
pub lookup-remove_node :
    (n r m : ℕ) (c : Catalog)
    → r < 2 ^ 32
    → lookup n r (remove_node m c) ≡ (if n == m && r == 0 then none else lookup n r c)
unfolding lookup remove_node pack_ids
lookup-remove_node n r m c hr =
    find-erase_if _ (catalog_key n r) c.entries
    ∙ ap (λ b. if b then none else find (catalog_key n r) c.entries) (ground arith)

find-load_entries :
    (m : Memory) (buf src n r k i : ℕ) (es : Entries)
    → r < 2 ^ 32
    → i + k ≤ 2 ^ 32
    → find (catalog_key n r) (load_entries m buf src k i es) ≡ (
        if src == n && (leb i r && ltb r (i + k))
        then some (deserialize m (buf + r * wire_size))
        else find (catalog_key n r) es)
unfolding load_entries
find-load_entries m buf src n r zero i es hr hk = ground arith
find-load_entries m buf src n r (suc k) i es hr hk =
    let e = deserialize m (buf + i * wire_size) in
    let small : i % 2 ^ 32 ≡ i = omega arith in
    ground (
      arith,
      find-load_entries m buf src n r k (i + 1) (put (catalog_key src (i % 2 ^ 32)) e es) hr
          (omega arith),
      find-put (catalog_key src (i % 2 ^ 32)) (catalog_key n r) e es,
      pack_ids_test src n (i % 2 ^ 32) r (omega arith) hr,
      small,
    )

-- `deserialize_from` enters one entry for each whole slot of the buffer, under the source node and
-- the slot's position, and leaves every other entry as before.
pub lookup-deserialize_from :
    (m : Memory) (buf len src n r : ℕ) (c : Catalog)
    → r < 2 ^ 32
    → len / wire_size ≤ 2 ^ 32
    → lookup n r (deserialize_from m buf len src c) ≡ (
        if src == n && ltb r (len / wire_size)
        then some (deserialize m (buf + r * wire_size))
        else lookup n r c)
unfolding lookup deserialize_from
lookup-deserialize_from m buf len src n r c hr hl =
    ground (arith, find-load_entries m buf src n r (len / wire_size) 0 c.entries hr (omega arith))
