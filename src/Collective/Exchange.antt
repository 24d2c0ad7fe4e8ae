-- ===== src/Collective/Exchange.antt =====
-- `_allgather_base` and `alltoall_base` of csrc/backend/ProcessGroupMCCL.cpp, for all ranks at once.
-- Each rank sends a range of its input to every other rank and receives a range of its output from it;
-- a receive of more or fewer bytes than are sent is a stall, or upsets the stream, and has no result. At
-- both ends of a pair a thread sends before it receives: `room p r`, a parameter, is the number of bytes
-- that the socket buffers hold from the rank `p` to the rank `r`, and a pair in which neither message fits
-- into them blocks for ever and has no result.
-- Split sizes are not negative and add up to no more than the tensor has, which the code does not
-- check; offsets are below 2^64.
pub mod Segments
pub mod Result
use mccl.Base.{
  ℕ, zero, suc, ◌+◌, ◌-◌, ◌*◌, ◌/◌, Bool, true, false, not, ◌&&◌, ◌||◌, Option, none, some, List,
  [], ◌∷◌, Memory, length, get_or, ltb, leb, ◌==◌, ◌>>=◌, if◌then◌else◌,
}
use mccl.Allreduce.Tree.{every_rank}

-- `memcpy(dst + off, src + from, len)`, or a message of `len` bytes from one rank to another.
unfoldable pub copy_range : Memory → ℕ → Memory → ℕ → ℕ → Memory
copy_range dst off src from len i =
    if leb off i && ltb i (off + len) then src (from + (i - off)) else dst i

-- The offset after the first `p` parts of the given sizes: `in_off[p]` and `out_off[p]`.
unfoldable pub offset : (ℕ → ℕ) → ℕ → ℕ
offset sizes zero = 0
offset sizes (suc p) = offset sizes p + sizes p

-- The sizes in bytes of the parts of a tensor, or a failed check: equal parts if there are no splits.
unfoldable pub part_sizes : ℕ → ℕ → ℕ → List ℕ → Option (ℕ → ℕ)
part_sizes world numel elem_size [] =
    let per = numel / world * elem_size in
    if per * world == numel * elem_size then some (λ p. per) else none
part_sizes world numel elem_size (n ∷ splits) =
    if length (n ∷ splits) == world then some (λ p. get_or (n ∷ splits) p 0 * elem_size) else none

-- What the ranks send: where in the input of rank `p` the bytes for rank `r` begin and how many they
-- are; the input itself.
pub record Sends : Type 0 where
  pub input : ℕ → Memory
  pub from : ℕ → ℕ → ℕ
  pub sent : ℕ → ℕ → ℕ

-- What rank `rank` holds after it has received the parts of the ranks below `n`, of the given sizes.
-- Its own part is copied.
unfoldable pub receive_parts : Sends → (ℕ → ℕ) → ℕ → ℕ → Memory → Memory
unfolding copy_range offset
receive_parts sends sizes rank zero dst = dst
receive_parts sends sizes rank (suc n) dst =
    copy_range (receive_parts sends sizes rank n dst) (offset sizes n) (sends.input n)
      (sends.from n rank) (sizes n)

-- Whether the threads of the ranks `r` and `p` come past their sends: one of the messages fits into the
-- socket buffers, so its sender goes on to receive the other.
abbrev pub gets_past : (ℕ → ℕ → ℕ) → (ℕ → ℕ → ℕ) → ℕ → ℕ → Bool
gets_past room sent r p = r == p || leb (sent r p) (room r p) || leb (sent p r) (room p r)

-- Whether no pair of ranks blocks.
abbrev pub all_pass : ℕ → (ℕ → ℕ → ℕ) → (ℕ → ℕ → ℕ) → Bool
all_pass world room sent = every_rank (λ r. every_rank (gets_past room sent r) world) world

-- Whether a rank receives as many bytes from each one as that sends.
abbrev pub parts_match : ℕ → Sends → (ℕ → ℕ → ℕ) → ℕ → Bool
parts_match world sends sizes rank = every_rank (λ p. sizes rank p == sends.sent p rank) world

-- The messages of all ranks, where `sizes r p` is the size of the part that `r` receives from `p`; the
-- staging buffer of the output is zero.
unfoldable pub exchange : (ℕ → ℕ → ℕ) → ℕ → Sends → (ℕ → ℕ → ℕ) → Option (ℕ → Memory)
unfolding receive_parts
exchange room world sends sizes =
    if every_rank (parts_match world sends sizes) world && all_pass world room sends.sent
    then some (λ r. receive_parts sends (sizes r) r world (λ i. 0))
    else none

-- The arguments of one rank.
pub record Sides : Type 0 where
  pub in_numel : ℕ
  pub out_numel : ℕ
  pub in_splits : List ℕ
  pub out_splits : List ℕ

-- The sizes at each rank, if the checks of all ranks below `n` succeed.
unfoldable pub all_sizes : (ℕ → Option (ℕ → ℕ)) → ℕ → Option (ℕ → ℕ → ℕ)
all_sizes sizes zero = some (λ r p. 0)
all_sizes sizes (suc n) = do
  here ← sizes n
  below ← all_sizes sizes n
  some (λ r. if r == n then here else below r)

unfoldable pub alltoall_base :
    (ℕ → ℕ → ℕ) → ℕ → ℕ → (ℕ → Sides) → (ℕ → Memory) → Option (ℕ → Memory)
unfolding part_sizes all_sizes exchange offset
alltoall_base room world elem_size sides input = do
  ins ← all_sizes (λ r. part_sizes world (sides r).in_numel elem_size (sides r).in_splits) world
  outs ← all_sizes (λ r. part_sizes world (sides r).out_numel elem_size (sides r).out_splits) world
  let sends : Sends = record { input = input; from = λ p r. offset (ins p) r; sent = ins }
  exchange room world sends outs

-- `chunk r` and `total r` are the sizes in bytes of rank `r`'s input and output.
unfoldable pub allgather_base :
    (ℕ → ℕ → ℕ) → ℕ → (ℕ → ℕ) → (ℕ → ℕ) → (ℕ → Memory) → Option (ℕ → Memory)
unfolding exchange
allgather_base room world chunk total input =
    if every_rank (λ r. total r == chunk r * world) world
    then exchange room world (record { input = input; from = λ p r. 0; sent = λ p r. chunk p })
        (λ r p. chunk r)
    else none
