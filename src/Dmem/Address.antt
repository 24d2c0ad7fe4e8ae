-- ===== src/Dmem/Address.antt =====
-- csrc/dmem/GlobalAddress.hpp: global addresses and memory regions. The fields are plain numbers;
-- `node_id` has 16 bits, `region_id`, `rkey` and `lkey` 32, `offset`, `local_addr` and `length` 64.
-- The host is little-endian.
use mccl.Base.{
  ℕ, ◌+◌, ◌*◌, ◌^◌, ◌<◌, ◌≡◌, ◌∙◌, inl, Bool, ◌&&◌, not, ◌==◌, bit_and, arith, Memory, read_value,
  write_value, read_value-write_self, read_value-write_apart,
}

pub record GlobalAddress : Type 0 where
  pub node_id : ℕ
  pub region_id : ℕ
  pub offset : ℕ

-- The widths of the struct's fields.
pub record AddressFits (a : GlobalAddress) : Type 0 where
  pub node_fits : a.node_id < 2 ^ 16
  pub region_fits : a.region_id < 2 ^ 32
  pub offset_fits : a.offset < 2 ^ 64

-- `GlobalAddress::serialize` and `deserialize`, at the address `buf`.
pub serialize : GlobalAddress → Memory → ℕ → Memory
serialize a m buf =
    write_value (write_value (write_value m buf 2 a.node_id) (buf + 2) 4 a.region_id) (buf + 6) 8
      a.offset

pub deserialize : Memory → ℕ → GlobalAddress
deserialize m buf = record {
  node_id = read_value m buf 2;
  region_id = read_value m (buf + 2) 4;
  offset = read_value m (buf + 6) 8;
}

-- The key of a region. The two shifted fields share no bit, so their `|` is their sum.
unfoldable pub pack_ids : ℕ → ℕ → ℕ
pack_ids node_id region_id = node_id * 2 ^ 48 + region_id * 2 ^ 16

-- `GlobalAddress::pack`: the offset is no part of it.
unfoldable pub pack : GlobalAddress → ℕ
pack a = pack_ids a.node_id a.region_id

-- `operator==`
unfoldable pub same_address : GlobalAddress → GlobalAddress → Bool
same_address a b = a.node_id == b.node_id && (a.region_id == b.region_id && a.offset == b.offset)

pub record MemoryRegion : Type 0 where
  pub gaddr : GlobalAddress
  pub local_addr : ℕ
  pub length : ℕ
  pub rkey : ℕ
  pub lkey : ℕ
  pub flags : ℕ

-- `MemoryRegion{}`
abbrev pub no_region : MemoryRegion
no_region = record {
  gaddr = record { node_id = 0; region_id = 0; offset = 0 };
  local_addr = 0;
  length = 0;
  rkey = 0;
  lkey = 0;
  flags = 0;
}

abbrev pub readable : ℕ
readable = 0x01

abbrev pub writable : ℕ
writable = 0x02

abbrev pub is_remote_readable : MemoryRegion → Bool
is_remote_readable r = not (bit_and r.flags readable == 0)

abbrev pub is_remote_writable : MemoryRegion → Bool
is_remote_writable r = not (bit_and r.flags writable == 0)

-- Two regions share a key only if they are one.
pub pack_ids-injective :
    (n m r q : ℕ) → r < 2 ^ 32 → q < 2 ^ 32 → pack_ids n r ≡ pack_ids m q → (n ≡ m) × (r ≡ q)
unfolding pack_ids
pack_ids-injective n m r q hr hq e = omega arith

pub pack_ids_test :
    (n m r q : ℕ) → r < 2 ^ 32 → q < 2 ^ 32 → (pack_ids n r == pack_ids m q) ≡ (n == m && r == q)
unfolding pack_ids
pack_ids_test n m r q hr hq = ground arith

-- An address whose fields fit their widths survives the 14-byte wire format, wherever the buffer
-- stands in memory and whatever it held.
pub deserialize-serialize :
    (a : GlobalAddress) (m : Memory) (buf : ℕ)
    → AddressFits a
    → deserialize (serialize a m buf) buf ≡ a
unfolding serialize deserialize
deserialize-serialize a m buf fits =
    let m₁ : Memory = write_value m buf 2 a.node_id in
    let m₂ : Memory = write_value m₁ (buf + 2) 4 a.region_id in
    let node : read_value (write_value m₂ (buf + 6) 8 a.offset) buf 2 ≡ a.node_id =
      read_value-write_apart m₂ (buf + 6) 8 a.offset buf 2 (inl (omega arith))
      ∙ read_value-write_apart m₁ (buf + 2) 4 a.region_id buf 2 (inl (omega arith))
      ∙ read_value-write_self m buf 2 a.node_id (omega arith) in
    let region : read_value (write_value m₂ (buf + 6) 8 a.offset) (buf + 2) 4 ≡ a.region_id =
      read_value-write_apart m₂ (buf + 6) 8 a.offset (buf + 2) 4 (inl (omega arith))
      ∙ read_value-write_self m₁ (buf + 2) 4 a.region_id (omega arith) in
    let offset : read_value (write_value m₂ (buf + 6) 8 a.offset) (buf + 6) 8 ≡ a.offset =
      read_value-write_self m₂ (buf + 6) 8 a.offset (omega arith) in
    λ i. record { node_id = node i; region_id = region i; offset = offset i }
