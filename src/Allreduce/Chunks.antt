-- ===== src/Allreduce/Chunks.antt =====
-- `chunkize` of csrc/backend/AllreduceAlgos.cpp: the tensor in one chunk for each rank. The numbers
-- are not negative, and the products stay below 2^63.
use mccl.Base.{
  ℕ, zero, suc, ◌+◌, ◌-◌, ◌*◌, ◌/◌, ◌≤◌, ◌<◌, min, ◌≡◌, refl, subst, ap, List, [], ◌∷◌, arith,
  length,
}
use native.Mathlib.Nat.{div-add-mod, mod-lt}

pub record ChunkInfo : Type 0 where
  pub elem_start : ℕ
  pub elem_count : ℕ
  pub byte_off : ℕ
  pub byte_len : ℕ

-- `(numel + world - 1) / world`
abbrev pub per_chunk : ℕ → ℕ → ℕ
per_chunk numel world = (numel + world - 1) / world

unfoldable pub chunk : ℕ → ℕ → ℕ → ℕ → ChunkInfo
chunk numel elem_size world i =
    let per = per_chunk numel world in
    let s = min (i * per) numel in
    let e = min ((i + 1) * per) numel in
    record {
      elem_start = s;
      elem_count = e - s;
      byte_off = s * elem_size;
      byte_len = (e - s) * elem_size;
    }

-- The chunks `i`, `i + 1`, … of which `n` are left.
chunks_from : ℕ → ℕ → ℕ → ℕ → ℕ → List ChunkInfo
chunks_from numel elem_size world zero i = []
chunks_from numel elem_size world (suc n) i =
    chunk numel elem_size world i ∷ chunks_from numel elem_size world n (i + 1)

unfoldable pub chunkize : ℕ → ℕ → ℕ → List ChunkInfo
unfolding chunks_from
chunkize numel elem_size world = chunks_from numel elem_size world world 0

-- From `start`, each chunk begins in elements and in bytes where the one before ends, and the last
-- ends at `numel`.
abbrev pub Tiles : ℕ → ℕ → ℕ → List ChunkInfo → Type 0
Tiles numel elem_size start [] = start ≡ numel
Tiles numel elem_size start (c ∷ cs) =
    (c.elem_start ≡ start)
    × (c.byte_off ≡ start * elem_size)
    × (c.byte_len ≡ c.elem_count * elem_size)
    × Tiles numel elem_size (start + c.elem_count) cs

per_chunk_covers : (numel world : ℕ) → 0 < world → numel ≤ world * per_chunk numel world
per_chunk_covers numel world h =
    omega (arith, div-add-mod (numel + world - 1) world, mod-lt (numel + world - 1) h)

chunks_from-Tiles :
    (numel elem_size world n i : ℕ)
    → numel ≤ (n + i) * per_chunk numel world
    → Tiles numel elem_size
        (min (i * per_chunk numel world) numel)
        (chunks_from numel elem_size world n i)
unfolding chunks_from chunk
chunks_from-Tiles numel elem_size world zero i h = omega arith
chunks_from-Tiles numel elem_size world (suc n) i h =
    let per = per_chunk numel world in
    let next : min ((i + 1) * per) numel
        ≡ min (i * per) numel + (min ((i + 1) * per) numel - min (i * per) numel) =
      omega arith in
    (
      refl,
      refl,
      refl,
      subst (λ start. Tiles numel elem_size start (chunks_from numel elem_size world n (i + 1)))
          next (chunks_from-Tiles numel elem_size world n (i + 1) (omega arith)),
    )

length-chunks_from :
    (numel elem_size world n i : ℕ) → length (chunks_from numel elem_size world n i) ≡ n
unfolding chunks_from
length-chunks_from numel elem_size world zero i = refl
length-chunks_from numel elem_size world (suc n) i =
    ap suc (length-chunks_from numel elem_size world n (i + 1))

-- The chunks, one for each rank, follow each other without gap or overlap from the tensor's first
-- element to its last, in elements and in bytes, if there is a rank.
pub chunkize-Tiles :
    (numel elem_size world : ℕ)
    → 0 < world
    → Tiles numel elem_size 0 (chunkize numel elem_size world)
      × (length (chunkize numel elem_size world) ≡ world)
unfolding chunkize
chunkize-Tiles numel elem_size world h = (
  subst (λ start. Tiles numel elem_size start (chunks_from numel elem_size world world 0))
      (omega arith)
      (chunks_from-Tiles numel elem_size world world 0
        (omega (arith, per_chunk_covers numel world h))),
  length-chunks_from numel elem_size world world 0,
)
