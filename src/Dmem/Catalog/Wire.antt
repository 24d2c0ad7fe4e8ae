-- ===== src/Dmem/Catalog/Wire.antt =====
-- The 32-byte wire format of csrc/dmem/MemoryCatalog.hpp.
use mccl.Base.{
  ℕ, ◌+◌, ◌^◌, ◌≤◌, ◌<◌, ◌≡◌, ◌∙◌, ◌⊎◌, inl, arith, Memory, read_value, write_value,
  read_value-write_self, read_value-write_apart, write_value_outside,
}
use mccl.Dmem.Catalog.{Entry, serialize, deserialize, wire_size}

-- The widths of the struct's fields.
pub record EntryFits (e : Entry) : Type 0 where
  pub addr_fits : e.local_addr < 2 ^ 64
  pub length_fits : e.length < 2 ^ 64
  pub rkey_fits : e.rkey < 2 ^ 32
  pub flags_fits : e.flags < 2 ^ 32
  pub epoch_fits : e.epoch < 2 ^ 64

module _ (e : Entry) (m : Memory) (buf : ℕ) where
  abbrev after_addr : Memory
  after_addr = write_value m buf 8 e.local_addr

  abbrev after_length : Memory
  after_length = write_value after_addr (buf + 8) 8 e.length

  abbrev after_rkey : Memory
  after_rkey = write_value after_length (buf + 16) 4 e.rkey

  abbrev after_flags : Memory
  after_flags = write_value after_rkey (buf + 20) 4 e.flags

  after_rkey_apart :
      (o n : ℕ)
      → ((o + n ≤ buf + 16) ⊎ (buf + 32 ≤ o))
      → read_value (serialize e m buf) o n ≡ read_value after_length o n
  unfolding serialize
  after_rkey_apart o n h =
      read_value-write_apart after_flags (buf + 24) 8 e.epoch o n (omega arith)
      ∙ read_value-write_apart after_rkey (buf + 20) 4 e.flags o n (omega arith)
      ∙ read_value-write_apart after_length (buf + 16) 4 e.rkey o n (omega arith)

  read_value-serialize_apart :
      (o n : ℕ)
      → ((o + n ≤ buf) ⊎ (buf + 32 ≤ o))
      → read_value (serialize e m buf) o n ≡ read_value m o n
  read_value-serialize_apart o n h =
      after_rkey_apart o n (omega arith)
      ∙ read_value-write_apart after_addr (buf + 8) 8 e.length o n (omega arith)
      ∙ read_value-write_apart m buf 8 e.local_addr o n (omega arith)

  -- Writing an entry changes no slot that does not overlap its 32 bytes.
  pub deserialize-serialize_apart :
      (o : ℕ)
      → ((o + wire_size ≤ buf) ⊎ (buf + wire_size ≤ o))
      → deserialize (serialize e m buf) o ≡ deserialize m o
  unfolding deserialize
  deserialize-serialize_apart o h = λ i. record {
    local_addr = read_value-serialize_apart o 8 (omega arith) i;
    length = read_value-serialize_apart (o + 8) 8 (omega arith) i;
    rkey = read_value-serialize_apart (o + 16) 4 (omega arith) i;
    flags = read_value-serialize_apart (o + 20) 4 (omega arith) i;
    epoch = read_value-serialize_apart (o + 24) 8 (omega arith) i;
  }

  -- An entry whose fields fit their widths survives the wire format.
  pub deserialize-serialize_entry : EntryFits e → deserialize (serialize e m buf) buf ≡ e
  unfolding deserialize serialize
  deserialize-serialize_entry fits =
      let addr : read_value (serialize e m buf) buf 8 ≡ e.local_addr =
        after_rkey_apart buf 8 (omega arith)
        ∙ read_value-write_apart after_addr (buf + 8) 8 e.length buf 8 (omega arith)
        ∙ read_value-write_self m buf 8 e.local_addr (omega arith) in
      let len : read_value (serialize e m buf) (buf + 8) 8 ≡ e.length =
        after_rkey_apart (buf + 8) 8 (omega arith)
        ∙ read_value-write_self after_addr (buf + 8) 8 e.length (omega arith) in
      let rkey : read_value (serialize e m buf) (buf + 16) 4 ≡ e.rkey =
        read_value-write_apart after_flags (buf + 24) 8 e.epoch (buf + 16) 4 (inl (omega arith))
        ∙ read_value-write_apart after_rkey (buf + 20) 4 e.flags (buf + 16) 4 (inl (omega arith))
        ∙ read_value-write_self after_length (buf + 16) 4 e.rkey (omega arith) in
      let flags : read_value (serialize e m buf) (buf + 20) 4 ≡ e.flags =
        read_value-write_apart after_flags (buf + 24) 8 e.epoch (buf + 20) 4 (inl (omega arith))
        ∙ read_value-write_self after_rkey (buf + 20) 4 e.flags (omega arith) in
      let epoch : read_value (serialize e m buf) (buf + 24) 8 ≡ e.epoch =
        read_value-write_self after_flags (buf + 24) 8 e.epoch (omega arith) in
      λ i. record {
        local_addr = addr i;
        length = len i;
        rkey = rkey i;
        flags = flags i;
        epoch = epoch i;
      }

  -- Nor any byte outside those 32.
  pub serialize_outside : (i : ℕ) → ((i < buf) ⊎ (buf + wire_size ≤ i)) → serialize e m buf i ≡ m i
  unfolding serialize
  serialize_outside i h =
      write_value_outside after_flags (buf + 24) 8 e.epoch i (omega arith)
      ∙ write_value_outside after_rkey (buf + 20) 4 e.flags i (omega arith)
      ∙ write_value_outside after_length (buf + 16) 4 e.rkey i (omega arith)
      ∙ write_value_outside after_addr (buf + 8) 8 e.length i (omega arith)
      ∙ write_value_outside m buf 8 e.local_addr i (omega arith)
