-- ===== src/Dmem/Manager/Resolution.antt =====
-- What addresses resolve to in csrc/dmem/DistributedMemoryManager.cpp.
use mccl.Base.{
  ℕ, zero, suc, ◌+◌, ◌-◌, ◌%◌, ◌^◌, ◌<◌, ◌≡◌, ◌≢◌, refl, sym, ◌⊎◌, ◌∙◌, ap, inl, inr, Bool, true,
  false, none, some, List, [], ◌∷◌, arith, length as count, get_elem?, set, ltb, ◌==◌, ==_self,
  ==_ne, Bool-cases, get_elem?-set_ne,
}
use mccl.Dmem.Address.{GlobalAddress, MemoryRegion, no_region}
use mccl.Dmem.Catalog.{remove}
use mccl.Dmem.Manager.{
  unresolved, MemoryManager, extend, enter_region, register_region, unregister_region,
  resolve_local, resolve, refused, put,
}

get_elem?-extend :
    (n i : ℕ) (rs : List MemoryRegion) (r : MemoryRegion)
    → get_elem? rs i ≡ some r
    → get_elem? (extend n rs) i ≡ some r
unfolding extend
get_elem?-extend zero i rs r e = e
get_elem?-extend (suc n) i [] r e = ground (arith, e)
get_elem?-extend (suc n) zero (x ∷ rs) r e = e
get_elem?-extend (suc n) (suc i) (x ∷ rs) r e = get_elem?-extend n i rs r e

get_elem?-set-extend :
    (n i : ℕ) (rs : List MemoryRegion) (r : MemoryRegion)
    → i < n
    → get_elem? (set (extend n rs) i r) i ≡ some r
unfolding extend
get_elem?-set-extend zero i rs r h = absurd (omega arith)
get_elem?-set-extend (suc n) zero [] r h = refl
get_elem?-set-extend (suc n) zero (x ∷ rs) r h = refl
get_elem?-set-extend (suc n) (suc i) [] r h = get_elem?-set-extend n i [] r (omega arith)
get_elem?-set-extend (suc n) (suc i) (x ∷ rs) r h = get_elem?-set-extend n i rs r (omega arith)

get_elem?-set_any :
    (rs : List MemoryRegion) (i : ℕ) (v : MemoryRegion)
    → (get_elem? (set rs i v) i ≡ none) ⊎ (get_elem? (set rs i v) i ≡ some v)
get_elem?-set_any [] i v = inl refl
get_elem?-set_any (x ∷ rs) zero v = inr refl
get_elem?-set_any (x ∷ rs) (suc i) v = get_elem?-set_any rs i v

get_elem?-beyond :
    (rs : List MemoryRegion) (i : ℕ) → ltb i (count rs) ≡ false → get_elem? rs i ≡ none
get_elem?-beyond [] i h = refl
get_elem?-beyond (x ∷ rs) zero h = ground (arith, h)
get_elem?-beyond (x ∷ rs) (suc i) h = get_elem?-beyond rs i (ground (arith, h))

-- The manager's own address in a region.
abbrev pub own : MemoryManager → ℕ → ℕ → GlobalAddress
own m id offset = record { node_id = m.node_id; region_id = id; offset = offset }

resolve-own :
    (m : MemoryManager) (id offset : ℕ)
    → resolve (own m id offset) m ≡ resolve_local (own m id offset) (get_elem? m.regions id)
unfolding resolve
resolve-own m id offset = rw (==_self m.node_id) refl

-- A region registers if the NIC accepts it, the base is not null and the length not zero. Then each
-- address of it that is in bounds resolves to the local byte at its offset, with the region's key and
-- the bytes left, and the local addresses of every other region that exists resolve as before.
pub resolve-register_region :
    (base length flags rkey lkey offset q o : ℕ) (r : MemoryRegion) (m : MemoryManager)
    → 0 < base
    → offset < length
    → q ≢ m.next_region_id
    → get_elem? m.regions q ≡ some r
    → (m' : MemoryManager) × (register_region (some (rkey, lkey)) base length flags m
        ≡ some (m.next_region_id, m'))
      × (resolve (own m m.next_region_id offset) m' ≡ record unresolved {
        is_local = true;
        local_ptr = (base + offset) % 2 ^ 64;
        local_lkey = lkey;
        length = length - offset;
      })
      × (resolve (own m q o) m' ≡ resolve (own m q o) m)
unfolding register_region resolve_local enter_region
resolve-register_region base length flags rkey lkey offset q o r m hb ho apart there =
    let id = m.next_region_id in
    let region : MemoryRegion = record {
      gaddr = record { node_id = m.node_id; region_id = id; offset = 0 };
      local_addr = base;
      length = length;
      rkey = rkey;
      lkey = lkey;
      flags = flags;
    } in
    let base_ok : (base == 0) ≡ false = ==_ne base 0 (omega arith) in
    let length_ok : (length == 0) ≡ false = ==_ne length 0 (omega arith) in
    let here = get_elem?-set-extend (id + 1) id m.regions region (omega arith) in
    let m' = enter_region base length flags rkey lkey m in
    (
      m',
      rw (register_region, base_ok, length_ok) refl,
      resolve-own m' id offset ∙ ap (resolve_local (own m id offset)) here ∙ ground (arith, hb, ho),
      let kept = get_elem?-set_ne (extend (id + 1) m.regions) id q region (λ e. apart (sym e)) in
          let same = kept ∙ get_elem?-extend (id + 1) q m.regions r there ∙ sym there in
          resolve-own m' q o ∙ ap (resolve_local (own m q o)) same ∙ sym (resolve-own m q o),
    )

unregistered :
    (id offset : ℕ) (m : MemoryManager)
    → resolve (own m id offset) (unregister_region id m) ≡ unresolved
unfolding unregister_region resolve_local
unregistered id offset m = elim (Bool-cases (ltb id (count m.regions))) [
  | inl e ↦
      let m' : MemoryManager = record m {
        regions = set m.regions id no_region;
        catalog = remove id m.catalog;
      } in
      let at = resolve-own m' id offset in
      elim (get_elem?-set_any m.regions id no_region) [
        | inl g ↦ rw e (at ∙ ap (resolve_local (own m id offset)) g)
        | inr g ↦ rw e (at ∙ ap (resolve_local (own m id offset)) g)
      ]
  | inr e ↦
      let beyond = get_elem?-beyond m.regions id e in
      rw e (resolve-own m id offset ∙ ap (resolve_local (own m id offset)) beyond)
]

-- Once a region is unregistered, no local address of it resolves, and a put there of at least one byte
-- is refused.
pub put-unregister_region :
    (connected accepts : ℕ → Bool) (target id offset source length : ℕ) (m : MemoryManager)
    → 0 < length
    → put connected accepts target (own m id offset) source length (unregister_region id m)
      ≡ (refused, unregister_region id m)
unfolding put unregister_region
put-unregister_region connected accepts target id offset source length m h =
    let m' = unregister_region id m in
    let gone = unregistered id offset m in
    let short : ltb 0 length ≡ true = ground (arith, h) in rw (put, gone, short) ground arith
