-- ===== src/Dmem/Catalog/Keys.antt =====
-- The keys of csrc/dmem/MemoryCatalog.cpp.
use mccl.Base.{
  ℕ, zero, suc, ◌+◌, ◌/◌, ◌%◌, ◌^◌, ◌<◌, ◌≡◌, Bool, none, [], ◌∷◌, arith, find, put, erase_if,
  find-put, find-erase_if, Memory,
}
use mccl.Dmem.Address.{pack_ids}
use mccl.Dmem.Catalog.{
  Entry, Entries, Catalog, catalog_key, upsert, remove, remove_node, wire_size, load_entries,
  deserialize_from,
}

-- No key occurs twice, and each is the key of a node and a region.
abbrev pub Keyed : Entries → Type 0
Keyed [] = Unit {0}
Keyed ((k, e) ∷ es) = (k % 2 ^ 16 ≡ 0) × (k < 2 ^ 64) × (find k es ≡ none) × Keyed es

put-Keyed :
    (k : ℕ) (e : Entry) (es : Entries) → k % 2 ^ 16 ≡ 0 → k < 2 ^ 64 → Keyed es → Keyed (put k e es)
unfolding find put
put-Keyed k e [] h w v = ground arith
put-Keyed k e ((j, f) ∷ es) h w v = ground (arith, put-Keyed k e es h w v.3, find-put k j e es)

erase_if-Keyed : (drops : ℕ → Bool) (es : Entries) → Keyed es → Keyed (erase_if drops es)
unfolding find erase_if
erase_if-Keyed drops [] v = tt
erase_if-Keyed drops ((j, f) ∷ es) v =
    ground (arith, erase_if-Keyed drops es v.3, find-erase_if drops j es)

pub catalog_key-fits :
    (n r : ℕ)
    → n < 2 ^ 16
    → r < 2 ^ 32
    → (catalog_key n r % 2 ^ 16 ≡ 0) × (catalog_key n r < 2 ^ 64)
unfolding pack_ids
catalog_key-fits n r hn hr = omega arith

load_entries-Keyed :
    (m : Memory) (buf src n i : ℕ) (es : Entries)
    → src < 2 ^ 16
    → Keyed es
    → Keyed (load_entries m buf src n i es)
unfolding load_entries
load_entries-Keyed m buf src zero i es hs v = v
load_entries-Keyed m buf src (suc n) i es hs v =
    let fits = catalog_key-fits src (i % 2 ^ 32) hs (omega arith) in
    load_entries-Keyed m buf src n (i + 1) _ hs (put-Keyed _ _ es fits.0 fits.1 v)

pub data Op : Type 0 where
  upserts : (region_id : ℕ) → region_id < 2 ^ 32 → Entry → Op
  removes : ℕ → Op
  removes_node : ℕ → Op
  loads : Memory → (buf len source : ℕ) → source < 2 ^ 16 → Op

-- A client's calls, whatever their order.
abbrev pub apply : Op → Catalog → Catalog
apply (upserts r h e) = upsert r e
apply (removes r) = remove r
apply (removes_node n) = remove_node n
apply (loads m buf len source h) = deserialize_from m buf len source

-- Every operation of the catalog keeps its keys well formed and distinct.
pub apply-Keyed : (o : Op) (c : Catalog) → Keyed c.entries → Keyed (apply o c).entries
unfolding upsert remove remove_node deserialize_from
apply-Keyed (upserts r h e) c v =
    let fits = catalog_key-fits 0 r (omega arith) h in put-Keyed _ e c.entries fits.0 fits.1 v
apply-Keyed (removes r) c v = erase_if-Keyed _ c.entries v
apply-Keyed (removes_node n) c v = erase_if-Keyed _ c.entries v
apply-Keyed (loads m buf len source h) c v =
    load_entries-Keyed m buf source (len / wire_size) 0 c.entries h v
