-- ===== src/Dmem/Catalog.antt =====
-- csrc/dmem/MemoryCatalog.hpp and MemoryCatalog.cpp: the directory of the cluster's regions. The
-- mutex makes each operation one step. The hash map is an association list in its iteration order.
pub mod Keys
pub mod Entries
pub mod Wire
pub mod Publish
use mccl.Base.{
  ℕ, zero, suc, ◌+◌, ◌-◌, ◌*◌, ◌/◌, ◌%◌, ◌^◌, ◌<◌, max, Bool, not, Option, List, [], ◌∷◌, length,
  keep_if, ltb, leb, ◌==◌, if◌then◌else◌, find, put, erase_if, erase, Memory, read_value,
  write_value,
}
use mccl.Dmem.Address.{pack_ids}

-- `RegionDirectoryEntry`
pub record Entry : Type 0 where
  pub local_addr : ℕ
  pub length : ℕ
  pub rkey : ℕ
  pub flags : ℕ
  pub epoch : ℕ

abbrev pub wire_size : ℕ
wire_size = 32

abbrev pub max_regions_per_node : ℕ
max_regions_per_node = 256

unfoldable pub serialize : Entry → Memory → ℕ → Memory
serialize e m buf =
    write_value
      (write_value
        (write_value (write_value (write_value m buf 8 e.local_addr) (buf + 8) 8 e.length)
          (buf + 16) 4 e.rkey)
        (buf + 20) 4 e.flags)
      (buf + 24) 8 e.epoch

unfoldable pub deserialize : Memory → ℕ → Entry
deserialize m buf = record {
  local_addr = read_value m buf 8;
  length = read_value m (buf + 8) 8;
  rkey = read_value m (buf + 16) 4;
  flags = read_value m (buf + 20) 4;
  epoch = read_value m (buf + 24) 8;
}

abbrev pub Entries : Type 0
Entries = List (ℕ × Entry)

pub record Catalog : Type 0 where
  pub entries : Entries
  pub version : ℕ

-- `version_.fetch_add(1)`
abbrev bump : ℕ → ℕ
bump v = (v + 1) % 2 ^ 64

abbrev pub catalog_key : ℕ → ℕ → ℕ
catalog_key = pack_ids

-- A node's own entries go by the node number 0.
unfoldable pub upsert : ℕ → Entry → Catalog → Catalog
upsert region_id e c = record {
  entries = put (catalog_key 0 region_id) e c.entries;
  version = bump c.version;
}

unfoldable pub remove : ℕ → Catalog → Catalog
remove region_id c = record {
  entries = erase (catalog_key 0 region_id) c.entries;
  version = bump c.version;
}

-- `k & 0xFFFFFFFFFFFF0000`, for a key of 64 bits
abbrev pub mask_low_16 : ℕ → ℕ
mask_low_16 k = k - k % 2 ^ 16

unfoldable pub remove_node : ℕ → Catalog → Catalog
remove_node node_id c = record {
  entries = erase_if (λ k. mask_low_16 k == mask_low_16 (catalog_key node_id 0)) c.entries;
  version = bump c.version;
}

unfoldable pub lookup : ℕ → ℕ → Catalog → Option Entry
lookup node_id region_id c = find (catalog_key node_id region_id) c.entries

-- The loop of `deserialize_from`: `n` rounds are left, and `i` is the next position.
load_entries : Memory → ℕ → ℕ → ℕ → ℕ → Entries → Entries
load_entries m buf source_node zero i es = es
load_entries m buf source_node (suc n) i es =
    load_entries m buf source_node n (i + 1)
      (put (catalog_key source_node (i % 2 ^ 32)) (deserialize m (buf + i * wire_size)) es)

unfoldable pub deserialize_from : Memory → ℕ → ℕ → ℕ → Catalog → Catalog
unfolding load_entries
deserialize_from m buf len source_node c = record {
  entries = load_entries m buf source_node (len / wire_size) 0 c.entries;
  version = bump c.version;
}

-- `static_cast<uint16_t>(key >> 48)`
abbrev pub key_node : ℕ → ℕ
key_node k = k / 2 ^ 48 % 2 ^ 16

-- `static_cast<uint32_t>((key >> 16) & 0xFFFFFFFF)`
abbrev pub key_region : ℕ → ℕ
key_region k = k / 2 ^ 16 % 2 ^ 32

-- The loop of `serialize_into`, with the bytes written so far.
store_entries : ℕ → ℕ → Entries → Memory → ℕ → Memory × ℕ
store_entries buf max_len [] m written = (m, written)
store_entries buf max_len ((k, e) ∷ es) m written =
    let offset : ℕ = key_region k * wire_size in
    let skip = store_entries buf max_len es m written in
    let next =
      store_entries buf max_len es (serialize e m (buf + offset))
        (max written (offset + wire_size)) in
    if not (key_node k == 0)
    then skip
    else if leb max_regions_per_node (key_region k)
    then skip
    else if ltb max_len (offset + wire_size)
    then (m, written)
    else next

unfoldable pub serialize_into : Memory → ℕ → ℕ → Catalog → Memory × ℕ
unfolding store_entries
serialize_into m buf max_len c = store_entries buf max_len c.entries m 0

unfoldable pub local_entry_count : Catalog → ℕ
local_entry_count c = length (keep_if (λ p. key_node p.0 == 0) c.entries)
