-- ===== src/Transport/Buffer.antt =====
-- csrc/transport/rdma/SharedBuffer.cpp. `loaded` says whether the table of verbs is there, as for the whole
-- process; the answers of `posix_memalign` and `reg_mr` are arguments. The bytes are not modelled.
pub mod Balance
use mccl.Base.{
  ℕ, ◌+◌, ◌%◌, ◌^◌, ◌≡◌, ◌==◌, refl, Bool, true, false, ◌&&◌, Option, none, some, List, [], ◌∷◌,
  ◌++◌, arith, if◌then◌else◌,
}
use mccl.Transport.Ledger.{
  Kind, region, memory, Segment, Call, acquired, released, hit, hits, let_go, Fits, Fits-acquired,
  Fits-released, Fits-let_go, Fits-eq,
}

pub record SharedBuffer : Type 0 where
  pub buf : Option ℕ
  pub nbytes : ℕ
  pub registrations : List ℕ

-- A buffer that is constructed, moved from or cleaned up.
abbrev pub no_buffer : SharedBuffer
no_buffer = record { buf = none; nbytes = 0; registrations = [] }

unfoldable pub deregister_all : List ℕ → List Call → List Call
deregister_all [] log = log
deregister_all (mr ∷ mrs) log = deregister_all mrs (released region mr ∷ log)

unfoldable pub cleanup : Bool → SharedBuffer → List Call → SharedBuffer × List Call
unfolding deregister_all let_go
cleanup loaded b log =
    (no_buffer, let_go memory b.buf (if loaded then deregister_all b.registrations log else log))

abbrev pub allocated : ℕ → Option ℕ → List Call → SharedBuffer × List Call
allocated nbytes none log = (no_buffer, log)
allocated nbytes (some a) log =
    (record { buf = some a; nbytes = nbytes; registrations = [] }, acquired memory a ∷ log)

unfoldable pub allocate : Bool → SharedBuffer → ℕ → Option ℕ → List Call → SharedBuffer × List Call
unfolding cleanup
allocate loaded b nbytes answer log =
    let (b', log') = cleanup loaded b log in
    if nbytes == 0 then (b', log') else allocated nbytes answer log'

abbrev pub registered : SharedBuffer → Option ℕ → List Call → SharedBuffer × List Call × Option ℕ
registered b none log = (b, log, none)
registered b (some mr) log =
    (record b { registrations = b.registrations ++ (mr ∷ []) }, acquired region mr ∷ log, some mr)

abbrev pub is_there : Option ℕ → Bool
is_there none = false
is_there (some a) = true

-- `pd` says whether a protection domain is given.
unfoldable pub register_with :
    Bool → SharedBuffer → (pd : Bool) → Option ℕ → List Call → SharedBuffer × List Call × Option ℕ
register_with loaded b pd answer log =
    if loaded && is_there b.buf && pd then registered b answer log else (b, log, none)

-- The segment `[offset, offset + length)`; an address has 64 bits.
unfoldable pub to_sge : (base lkey offset length : ℕ) → Segment
to_sge base lkey offset length = record {
  addr = (base + offset) % 2 ^ 64;
  length = length;
  lkey = lkey;
}

-- The segment of the whole buffer; the length is cut to 32 bits.
unfoldable pub to_sge_whole : (base lkey : ℕ) → SharedBuffer → Segment
unfolding to_sge
to_sge_whole base lkey b = to_sge base lkey 0 (b.nbytes % 2 ^ 32)

-- The move constructor: the new buffer and what is left of the other.
unfoldable pub move_construct : SharedBuffer → SharedBuffer × SharedBuffer
move_construct other = (other, no_buffer)

-- The move assignment from another buffer.
unfoldable pub move_assign :
    Bool → (mine other : SharedBuffer) → List Call → SharedBuffer × SharedBuffer × List Call
unfolding cleanup
move_assign loaded mine other log = (other, no_buffer, (cleanup loaded mine log).1)
