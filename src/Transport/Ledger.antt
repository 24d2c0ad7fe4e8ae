-- ===== src/Transport/Ledger.antt =====
-- The calls that csrc/transport/rdma makes of the driver, the last one first, and what they leave held.
use mccl.Base.{
  ℕ, ◌+◌, ◌<◌, ◌≡◌, ◌&&◌, Option, none, some, List, [], ◌∷◌, arith, ◌==◌, if◌then◌else◌,
}

pub data Kind : Type 0 where
  context domain completions pair region memory : Kind

abbrev pub ordinal : Kind → ℕ
ordinal context = 0
ordinal domain = 1
ordinal completions = 2
ordinal pair = 3
ordinal region = 4
ordinal memory = 5

-- The attributes of the three `modify_qp` calls that bring a pair to INIT, RTR and RTS.
pub data Attributes : Type 0 where
  to_init : (pkey_index port_num qp_access_flags : ℕ) → Attributes
  to_rtr :
      (path_mtu dest_qp_num rq_psn max_dest_rd_atomic min_rnr_timer dlid dgid port_num : ℕ)
      → Attributes
  to_rts : (sq_psn timeout retry_cnt rnr_retry max_rd_atomic : ℕ) → Attributes

pub data Opcode : Type 0 where
  rdma_write rdma_write_with_imm send rdma_read : Opcode

pub record Segment : Type 0 where
  pub addr : ℕ
  pub length : ℕ
  pub lkey : ℕ

-- A request of the send queue; `send_flags` is a mask, `imm_data`, `remote_addr` and `rkey` are 0 where
-- the opcode does not read them.
pub record Request : Type 0 where
  pub wr_id : ℕ
  pub sg_list : List Segment
  pub opcode : Opcode
  pub send_flags : ℕ
  pub imm_data : ℕ
  pub remote_addr : ℕ
  pub rkey : ℕ

-- What is asked of a resource that is in use.
pub data Usage : Type 0 where
  modified : Attributes → Usage
  queried_port : ℕ → Usage
  queried_gid : ℕ → Usage
  posted : Request → Usage
  posted_recv : ℕ → Segment → Usage
  polled : ℕ → Usage

pub data Call : Type 0 where
  acquired : Kind → ℕ → Call
  released : Kind → ℕ → Call
  used : Kind → ℕ → Usage → Call

-- 1 for the handle `n` of kind `k`, and 0 for any other.
abbrev pub hit : Kind → ℕ → Kind → ℕ → ℕ
hit j m k n = if ordinal k == ordinal j && n == m then 1 else 0

abbrev pub hits : Kind → ℕ → Kind → Option ℕ → ℕ
hits j m k none = 0
hits j m k (some n) = hit j m k n

unfoldable pub acquisitions : Kind → ℕ → List Call → ℕ
acquisitions j m [] = 0
acquisitions j m (acquired k n ∷ log) = hit j m k n + acquisitions j m log
acquisitions j m (released k n ∷ log) = acquisitions j m log
acquisitions j m (used k n u ∷ log) = acquisitions j m log

unfoldable pub releases : Kind → ℕ → List Call → ℕ
releases j m [] = 0
releases j m (acquired k n ∷ log) = releases j m log
releases j m (released k n ∷ log) = hit j m k n + releases j m log
releases j m (used k n u ∷ log) = releases j m log

-- Each call names a handle that was held when it was made: none is released twice or used afterwards.
abbrev pub Orderly : List Call → Type 0
Orderly [] = Unit
Orderly (acquired k n ∷ log) = Orderly log
Orderly (released k n ∷ log) = (releases k n log < acquisitions k n log) × Orderly log
Orderly (used k n u ∷ log) = (releases k n log < acquisitions k n log) × Orderly log

-- The calls leave held exactly what `holds` counts.
pub record Fits (holds : Kind → ℕ → ℕ) (log : List Call) : Type 0 where
  pub balanced : (j : Kind) (m : ℕ) → acquisitions j m log ≡ releases j m log + holds j m
  pub orderly : Orderly log

hit_self : (k : Kind) (n : ℕ) → hit k n k n ≡ 1
hit_self context n = ground arith
hit_self domain n = ground arith
hit_self completions n = ground arith
hit_self pair n = ground arith
hit_self region n = ground arith
hit_self memory n = ground arith

module _ (holds holds' : Kind → ℕ → ℕ) (k : Kind) (n : ℕ) (log : List Call) where
  pub Fits-acquired :
      ((j : Kind) (m : ℕ) → holds' j m ≡ hit j m k n + holds j m)
      → Fits holds log
      → Fits holds' (acquired k n ∷ log)
  unfolding acquisitions releases
  Fits-acquired more f = record {
    balanced = λ j m. omega (arith, more j m, f.balanced j m);
    orderly = f.orderly;
  }

  held_now :
      ((j : Kind) (m : ℕ) → holds j m ≡ hit j m k n + holds' j m)
      → Fits holds log
      → releases k n log < acquisitions k n log
  held_now less f = omega (arith, less k n, hit_self k n, f.balanced k n)

  pub Fits-released :
      ((j : Kind) (m : ℕ) → holds j m ≡ hit j m k n + holds' j m)
      → Fits holds log
      → Fits holds' (released k n ∷ log)
  unfolding acquisitions releases
  Fits-released less f = record {
    balanced = λ j m. omega (arith, less j m, f.balanced j m);
    orderly = (held_now less f, f.orderly);
  }

  pub Fits-used :
      (u : Usage)
      → ((j : Kind) (m : ℕ) → holds j m ≡ hit j m k n + holds' j m)
      → Fits holds log
      → Fits holds (used k n u ∷ log)
  unfolding acquisitions releases
  Fits-used u less f = record { balanced = f.balanced; orderly = (held_now less f, f.orderly) }

-- `if (p) release(p)`
unfoldable pub let_go : Kind → Option ℕ → List Call → List Call
let_go k none log = log
let_go k (some n) log = released k n ∷ log

pub Fits-let_go :
    (holds holds' : Kind → ℕ → ℕ) (k : Kind) (o : Option ℕ) (log : List Call)
    → ((j : Kind) (m : ℕ) → holds j m ≡ hits j m k o + holds' j m)
    → Fits holds log
    → Fits holds' (let_go k o log)
unfolding let_go
Fits-let_go holds holds' k none log less f = record {
  balanced = λ j m. omega (arith, less j m, f.balanced j m);
  orderly = f.orderly;
}
Fits-let_go holds holds' k (some n) log less f = Fits-released holds holds' k n log less f

-- Equal counts fit the same calls.
pub Fits-eq :
    (holds holds' : Kind → ℕ → ℕ) (log : List Call)
    → ((j : Kind) (m : ℕ) → holds j m ≡ holds' j m)
    → Fits holds log
    → Fits holds' log
Fits-eq holds holds' log same f = record {
  balanced = λ j m. omega (arith, same j m, f.balanced j m);
  orderly = f.orderly;
}
