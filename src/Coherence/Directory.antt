-- ===== src/Coherence/Directory.antt =====
-- csrc/coherence/CoherenceDirectory.hpp and CoherenceDirectory.cpp. `sharers` and `exclusive_owner` have
-- 8 bits, `epoch` 64. Node ids are below 32 where they shift a bit. The mutex makes each operation of
-- the directory one step.
pub mod Sharers
pub mod Pages
use mccl.Base.{
  ℕ, zero, suc, ◌+◌, ◌-◌, ◌*◌, ◌/◌, ◌%◌, ◌^◌, bit_and, bit_or, Bool, not, Option, none, some, List,
  [], ◌∷◌, length, ◌==◌, find, put, erase_if,
}

pub data CoherenceState : Type 0 where
  uncached shared exclusive : CoherenceState

pub record DirectoryEntry : Type 0 where
  pub state : CoherenceState
  pub sharers : ℕ
  pub exclusive_owner : ℕ
  pub epoch : ℕ

-- `DirectoryEntry{}`
abbrev pub new_entry : DirectoryEntry
new_entry = record { state = uncached; sharers = 0; exclusive_owner = 0; epoch = 0 }

-- `(sharers & (1 << node)) != 0`
unfoldable pub in_mask : ℕ → ℕ → Bool
in_mask sharers node = not (bit_and sharers (2 ^ node) == 0)

-- `sharers | (1 << node)`, cut to 8 bits
unfoldable pub mask_with : ℕ → ℕ → ℕ
mask_with sharers node = bit_or sharers (2 ^ node) % 256

-- `sharers & ~(1 << node)`, where the complement has 32 bits
unfoldable pub mask_without : ℕ → ℕ → ℕ
mask_without sharers node = bit_and sharers (2 ^ 32 - 1 - 2 ^ node)

-- `__builtin_popcount` of the lowest `n` bits
unfoldable pub popcount : ℕ → ℕ → ℕ
popcount zero mask = 0
popcount (suc n) mask = mask % 2 + popcount n (mask / 2)

abbrev pub has_sharer : DirectoryEntry → ℕ → Bool
has_sharer e node = in_mask e.sharers node

abbrev pub add_sharer : ℕ → DirectoryEntry → DirectoryEntry
add_sharer node e = record e { sharers = mask_with e.sharers node }

abbrev pub remove_sharer : ℕ → DirectoryEntry → DirectoryEntry
remove_sharer node e = record e { sharers = mask_without e.sharers node }

abbrev pub sharer_count : DirectoryEntry → ℕ
sharer_count e = popcount 8 e.sharers

abbrev pub clear_all_sharers : DirectoryEntry → DirectoryEntry
clear_all_sharers e = record e { sharers = 0; exclusive_owner = 0 }

abbrev pub Directory : Type 0
Directory = List (ℕ × DirectoryEntry)

-- `(region_id << 32) | (page_idx & 0xFFFFFFFF)`: the two share no bit.
unfoldable pub page_key : ℕ → ℕ → ℕ
page_key region_id page_idx = region_id * 2 ^ 32 + page_idx % 2 ^ 32

-- The entry that `get_or_create` refers to.
unfoldable pub entry_at : ℕ → ℕ → Directory → DirectoryEntry
entry_at region_id page_idx d = elim (find (page_key region_id page_idx) d) [
  | none ↦ new_entry
  | some e ↦ e
]

-- The directory after a change through that reference; the entry is created if it is not there.
unfoldable pub update_entry : ℕ → ℕ → (DirectoryEntry → DirectoryEntry) → Directory → Directory
update_entry region_id page_idx f d =
    put (page_key region_id page_idx) (f (entry_at region_id page_idx d)) d

unfoldable pub find_entry : ℕ → ℕ → Directory → Option DirectoryEntry
find_entry region_id page_idx d = find (page_key region_id page_idx) d

-- `key & 0xFFFFFFFF00000000` is compared with the region's prefix.
unfoldable pub remove_region : ℕ → Directory → Directory
remove_region region_id d = erase_if (λ k. k - k % 2 ^ 32 == region_id * 2 ^ 32) d

unfoldable pub page_count : Directory → ℕ
page_count d = length d
