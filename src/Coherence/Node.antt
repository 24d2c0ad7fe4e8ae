-- ===== src/Coherence/Node.antt =====
-- The data of csrc/coherence/CoherenceMessage.hpp and CoherenceProtocol.hpp: messages, the state of a
-- node, and calls that may throw. The calls into the memory manager are listed in the order in which
-- they are made; `delivers n` says whether its `put_with_imm` and `put` to node `n` return or throw.
use mccl.Base.{
  ℕ, ◌+◌, ◌-◌, ◌*◌, ◌/◌, ◌%◌, ◌^◌, Bool, none, some, List, [], ◌∷◌, ◌++◌, if◌then◌else◌, find,
}
use mccl.Dmem.Address.{GlobalAddress}
use mccl.Coherence.Directory.{CoherenceState, DirectoryEntry, Directory, entry_at}

pub data CoherenceOp : Type 0 where
  read_req read_reply read_reply_dirty : CoherenceOp
  exclusive_req exclusive_grant exclusive_deny : CoherenceOp
  invalidate inval_ack : CoherenceOp
  writeback_req writeback_data writeback_ack : CoherenceOp
  barrier_enter barrier_leave : CoherenceOp

pub record Message : Type 0 where
  pub op : CoherenceOp
  pub page_addr : GlobalAddress
  pub epoch : ℕ
  pub sender_seq : ℕ

abbrev pub page_size : ℕ
page_size = 64 * 1024

-- `offset & ~(COHERENCE_PAGE_SIZE - 1)`
abbrev pub page_align_down : ℕ → ℕ
page_align_down offset = offset - offset % page_size

abbrev pub page_index : ℕ → ℕ
page_index offset = offset / page_size

abbrev pub no_address : GlobalAddress
no_address = record { node_id = 0; region_id = 0; offset = 0 }

pub record CachedPage : Type 0 where
  pub gaddr : GlobalAddress
  pub local_state : CoherenceState
  pub epoch : ℕ
  pub dirty : Bool

-- The calls of the memory manager that have an effect on other nodes.
pub data Effect : Type 0 where
  sends : ℕ → Message → Effect
  fences : ℕ → Effect
  drains : Effect

-- `msg_bufs` has the region of each peer's message buffer.
pub record Node : Type 0 where
  pub node_id : ℕ
  pub is_head : Bool
  pub num_nodes : ℕ
  pub msg_bufs : List (ℕ × ℕ)
  pub directory : Directory
  pub local_cache : List (ℕ × CachedPage)
  pub global_epoch : ℕ
  pub barrier_count : ℕ
  pub trace : List Effect

-- The ends of a call: it returns, it throws, or `put` copies from a null pointer.
pub data Outcome : Type 0 where
  done no_message_buffer put_failed null_source : Outcome

-- A call that throws keeps what it changed before.
abbrev pub M : Type 0
M = Node → Outcome × Node

infixl 5 ◌>>◌
abbrev pub ◌>>◌ : M → M → M
◌>>◌ m k n = elim (m n).0 [ done ↦ k (m n).1 | other ↦ (other, (m n).1) ]

abbrev pub skip : M
skip n = (done, n)

abbrev pub when : Bool → M → M
when b m n = if b then m n else (done, n)

-- `fetch_add(1)` on a 64-bit counter
abbrev pub inc64 : ℕ → ℕ
inc64 a = (a + 1) % 2 ^ 64

abbrev pub advance_epoch : M
advance_epoch n = (done, record n { global_epoch = inc64 n.global_epoch })

abbrev pub emit : Effect → M
emit e n = (done, record n { trace = n.trace ++ (e ∷ []) })

abbrev pub entry_of : Message → Node → DirectoryEntry
entry_of msg n = entry_at msg.page_addr.region_id (page_index msg.page_addr.offset) n.directory

module _ (delivers : ℕ → Bool) where
  unfoldable pub send_message : ℕ → Message → M
  send_message target msg n = elim (find target n.msg_bufs) [
    | none ↦ (no_message_buffer, n)
    | some _ ↦
        if delivers target
        then (done, record n { trace = n.trace ++ (sends target msg ∷ []) })
        else (put_failed, n)
  ]
