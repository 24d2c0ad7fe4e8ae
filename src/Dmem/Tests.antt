-- ===== src/Dmem/Tests.antt =====
-- Runs of csrc/dmem on small inputs.
use mccl.Base.{◌+◌, ◌-◌, ◌≡◌, refl, true, some, [], ◌∷◌, arith, Memory, find}
use mccl.Dmem.Address
use mccl.Dmem.Address.{GlobalAddress, MemoryRegion, no_region}
use mccl.Dmem.Catalog.{Entry, Catalog, catalog_key, lookup, serialize_into, deserialize_from}
use mccl.Dmem.Catalog.Keys.{Keyed}
use mccl.Dmem.Catalog.Publish.{deserialize_from-serialize_into}
use mccl.Dmem.Manager.{MemoryManager, unresolved, register_region, resolve, put_chunked}
use mccl.Dmem.Manager.Resolution.{own, resolve-register_region}
use mccl.Dmem.Manager.Chunking.{StayInBuffer, written, put_chunked-written}

abbrev blank : Memory
blank i = 0

abbrev entry : Entry
entry = record { local_addr = 65536; length = 8192; rkey = 17; flags = 3; epoch = 1 }

-- Region 5 of this node, and region 2 of node 1.
abbrev catalog : Catalog
catalog = record { entries = (catalog_key 0 5, entry) ∷ (catalog_key 1 2, entry) ∷ []; version = 2 }

catalog-Keyed : Keyed catalog.entries
unfolding Address.pack_ids find
catalog-Keyed = ground arith

found-entry : lookup 0 5 catalog ≡ some entry
unfolding lookup find Address.pack_ids
found-entry = refl

deserialize_from-serialize_into_example :
    let (m', written) = serialize_into blank 64 8192 catalog in
    lookup 4 5 (deserialize_from m' 64 written 4 catalog) ≡ some entry
deserialize_from-serialize_into_example =
    deserialize_from-serialize_into blank 64 8192 4 5 catalog catalog entry (omega arith)
      (omega arith) (omega arith) catalog-Keyed
      (record {
        addr_fits = omega arith;
        length_fits = omega arith;
        rkey_fits = omega arith;
        flags_fits = omega arith;
        epoch_fits = omega arith;
      })
      found-entry

abbrev region : MemoryRegion
region = record no_region { local_addr = 4096; length = 64; lkey = 5 }

-- A manager with region 1.
abbrev manager : MemoryManager
manager = record {
  node_id = 2;
  regions = no_region ∷ region ∷ [];
  catalog = catalog;
  next_region_id = 2;
  next_wr_id = 1;
  pending = [];
}

resolve-register_region_example :
    (m' : MemoryManager) × (register_region (some (8, 9)) 65536 4096 3 manager ≡ some (2, m'))
    × (resolve (own manager 2 100) m'
        ≡ record unresolved { is_local = true; local_ptr = 65636; local_lkey = 9; length = 3996 })
    × (resolve (own manager 1 8) m' ≡ resolve (own manager 1 8) manager)
resolve-register_region_example =
    resolve-register_region 65536 4096 3 8 9 100 1 8 region manager (omega arith) (omega arith)
      (omega arith) refl

put_chunked-written_example :
    let t = (put_chunked (λ w. true) 4096 7 65536 3000000 manager).0 in
    (t.returned ≡ true)
    × StayInBuffer 7 t.actions
    × (written t.actions (λ a. a) blank blank 2000000 ≡ 65536 + (2000000 - 4096))
put_chunked-written_example =
    put_chunked-written (λ w. true) 4096 7 65536 3000000 manager (λ a. a) blank blank 2000000
      (λ w. refl) (omega arith)
