-- ===== src/Transport/Buffer/Balance.antt =====
-- The memory and the registrations of a buffer of csrc/transport/rdma/SharedBuffer.cpp are given back once.
use mccl.Base.{
  ℕ, ◌+◌, ◌≡◌, ◌==◌, refl, Bool, true, false, Bool-cases, inl, inr, Option, none, some, List, [],
  ◌∷◌, arith, ◌&&◌,
}
use mccl.Transport.Ledger.{
  Kind, region, memory, Call, released, hit, hits, let_go, acquisitions, releases, Orderly, Fits,
  Fits-acquired, Fits-released, Fits-let_go, Fits-eq,
}
use mccl.Transport.Slots.{total, total-append}
use mccl.Transport.Buffer.{
  SharedBuffer, no_buffer, deregister_all, cleanup, allocated, allocate, registered, register_with,
  is_there, move_assign,
}

-- What is done to a buffer; `replaces` assigns from a new buffer, which is destroyed afterwards.
pub data BufferOp : Type 0 where
  allocates : (nbytes : ℕ) → Option ℕ → BufferOp
  registers : (pd : Bool) → Option ℕ → BufferOp
  replaces : (nbytes : ℕ) → Option ℕ → BufferOp
  cleans : BufferOp

abbrev pub replaced : Bool → SharedBuffer × SharedBuffer × List Call → SharedBuffer × List Call
unfolding cleanup
replaced loaded (mine, other, log) = (mine, (cleanup loaded other log).1)

abbrev pub replace : Bool → SharedBuffer → SharedBuffer × List Call → SharedBuffer × List Call
unfolding move_assign cleanup
replace loaded b (other, log) = replaced loaded (move_assign loaded b other log)

unfoldable pub apply : Bool → BufferOp → SharedBuffer → List Call → SharedBuffer × List Call
unfolding allocate register_with move_assign cleanup
apply loaded (allocates n a) b log = allocate loaded b n a log
apply loaded (registers pd a) b log =
    let (b', log', mr) = register_with loaded b pd a log in (b', log')
apply loaded (replaces n a) b log = replace loaded b (allocate loaded no_buffer n a log)
apply loaded cleans b log = cleanup loaded b log

unfoldable pub apply_all :
    Bool → List BufferOp → SharedBuffer → List Call → SharedBuffer × List Call
unfolding apply
apply_all loaded [] b log = (b, log)
apply_all loaded (op ∷ ops) b log =
    let (b', log') = apply loaded op b log in apply_all loaded ops b' log'

abbrev pub regions : Kind → ℕ → List ℕ → ℕ
regions j m mrs = total (hit j m region) mrs

abbrev pub owned : Kind → ℕ → SharedBuffer → ℕ
owned j m b = hits j m memory b.buf + regions j m b.registrations

-- Without the table of verbs nothing is registered.
abbrev pub IsWhole : Bool → SharedBuffer → Type 0
IsWhole loaded b = loaded ≡ false → b.registrations ≡ []

module _ (others : Kind → ℕ → ℕ) where
  abbrev Holds : SharedBuffer → List Call → Type 0
  Holds b log = Fits (λ j m. owned j m b + others j m) log

  deregister_all-Fits :
      (mrs : List ℕ) (log : List Call)
      → Fits (λ j m. regions j m mrs + others j m) log
      → Fits others (deregister_all mrs log)
  unfolding deregister_all total
  deregister_all-Fits [] log f = Fits-eq _ others log (λ j m. omega arith) f
  deregister_all-Fits (mr ∷ mrs) log f =
      deregister_all-Fits mrs (released region mr ∷ log)
        (Fits-released _ (λ j m. regions j m mrs + others j m) region mr log (λ j m. omega arith) f)

  free_memory :
      (b : SharedBuffer) (log : List Call)
      → Fits (λ j m. hits j m memory b.buf + others j m) log
      → Fits others (let_go memory b.buf log)
  free_memory b log f =
      Fits-let_go (λ j m. hits j m memory b.buf + others j m) others memory b.buf log
        (λ j m. omega arith) f

none_registered :
    (j : Kind) (m : ℕ) (b : SharedBuffer) → b.registrations ≡ [] → regions j m b.registrations ≡ 0
unfolding total
none_registered j m b e = rw e refl

cleanup-Fits :
    (others : Kind → ℕ → ℕ) (loaded : Bool) (b : SharedBuffer) (log : List Call)
    → IsWhole loaded b
    → Holds others b log
    → Fits others (cleanup loaded b log).1
unfolding cleanup
cleanup-Fits others true b log w f = free_memory others b _ (
    deregister_all-Fits (λ j m. hits j m memory b.buf + others j m) b.registrations log
      (Fits-eq _ _ log (λ j m. omega arith) f))
cleanup-Fits others false b log w f =
    free_memory others b log (Fits-eq _ _ log (λ j m. unregistered j m b (w refl)) f)
  where
    unregistered :
        (j : Kind) (m : ℕ) (b : SharedBuffer)
        → b.registrations ≡ []
        → owned j m b + others j m ≡ hits j m memory b.buf + others j m
    unregistered j m b e = ground (arith, none_registered j m b e)

module _ (others : Kind → ℕ → ℕ) where
  allocated-Holds :
      (loaded : Bool) (n : ℕ) (answer : Option ℕ) (log : List Call)
      → Fits others log
      → IsWhole loaded (allocated n answer log).0
        × Holds others (allocated n answer log).0 (allocated n answer log).1
  unfolding total
  allocated-Holds loaded n none log f = (λ off. refl, Fits-eq _ _ log (λ j m. omega arith) f)
  allocated-Holds loaded n (some a) log f =
      (λ off. refl, Fits-acquired _ _ memory a log (λ j m. omega arith) f)

  allocate-Holds :
      (loaded : Bool) (b : SharedBuffer) (n : ℕ) (answer : Option ℕ) (log : List Call)
      → IsWhole loaded b
      → Holds others b log
      → IsWhole loaded (allocate loaded b n answer log).0
        × Holds others (allocate loaded b n answer log).0 (allocate loaded b n answer log).1
  unfolding allocate total
  allocate-Holds loaded b n answer log w f =
      let g = cleanup-Fits others loaded b log w f in
      elim (Bool-cases (n == 0)) [
        | inl zero_bytes ↦ rw zero_bytes (λ off. refl, Fits-eq _ _ _ (λ j m. omega arith) g)
        | inr some_bytes ↦ rw some_bytes (allocated-Holds loaded n answer _ g)
      ]

  registered-Holds :
      (b : SharedBuffer) (answer : Option ℕ) (log : List Call)
      → Holds others b log
      → Holds others (registered b answer log).0 (registered b answer log).1
  unfolding total
  registered-Holds b none log f = f
  registered-Holds b (some mr) log f =
      Fits-acquired _ _ region mr log
        (λ j m. omega (arith, total-append (hit j m region) b.registrations (mr ∷ []))) f

  register_with-Holds :
      (loaded : Bool) (b : SharedBuffer) (pd : Bool) (answer : Option ℕ) (log : List Call)
      → IsWhole loaded b
      → Holds others b log
      → IsWhole loaded (register_with loaded b pd answer log).0
        × Holds others
            (register_with loaded b pd answer log).0
            (register_with loaded b pd answer log).1
  unfolding register_with
  register_with-Holds false b pd answer log w f = (w, f)
  register_with-Holds true b pd answer log w f = elim (Bool-cases (is_there b.buf && pd)) [
    | inl given ↦ rw given (λ off. cc, registered-Holds b answer log f)
    | inr missing ↦ rw missing (λ off. cc, f)
  ]

  replace-Holds :
      (loaded : Bool) (b other : SharedBuffer) (log : List Call)
      → IsWhole loaded b
      → IsWhole loaded other
      → Fits (λ j m. owned j m b + (owned j m other + others j m)) log
      → IsWhole loaded (replace loaded b (other, log)).0
        × Holds others (replace loaded b (other, log)).0 (replace loaded b (other, log)).1
  unfolding move_assign
  replace-Holds loaded b other log w w' f = (
    w',
    cleanup-Fits (λ j m. owned j m other + others j m) loaded no_buffer _ (λ off. refl)
        (Fits-eq _ _ _ (λ j m. omega (arith, none_registered j m no_buffer refl))
          (cleanup-Fits (λ j m. owned j m other + others j m) loaded b log w f)),
  )

apply-Holds :
    (others : Kind → ℕ → ℕ) (loaded : Bool) (op : BufferOp) (b : SharedBuffer) (log : List Call)
    → IsWhole loaded b
    → Holds others b log
    → IsWhole loaded (apply loaded op b log).0
      × Holds others (apply loaded op b log).0 (apply loaded op b log).1
unfolding apply
apply-Holds others loaded (allocates n a) b log w f = allocate-Holds others loaded b n a log w f
apply-Holds others loaded (registers pd a) b log w f =
    register_with-Holds others loaded b pd a log w f
apply-Holds others loaded (replaces n a) b log w f =
    let (w', g) =
      allocate-Holds (λ j m. owned j m b + others j m) loaded no_buffer n a log (λ off. refl)
        (Fits-eq _ _ log (λ j m. omega (arith, none_registered j m no_buffer refl)) f) in
    replace-Holds others loaded b (allocate loaded no_buffer n a log).0
      (allocate loaded no_buffer n a log).1 w w' (Fits-eq _ _ _ (λ j m. omega arith) g)
apply-Holds others loaded cleans b log w f = (
  λ off. refl,
  Fits-eq others _ _ (λ j m. omega (arith, none_registered j m no_buffer refl))
      (cleanup-Fits others loaded b log w f),
)

abbrev nothing : Kind → ℕ → ℕ
nothing j m = 0

apply_all-Holds :
    (loaded : Bool) (ops : List BufferOp) (b : SharedBuffer) (log : List Call)
    → IsWhole loaded b
    → Holds nothing b log
    → IsWhole loaded (apply_all loaded ops b log).0
      × Holds nothing (apply_all loaded ops b log).0 (apply_all loaded ops b log).1
unfolding apply_all
apply_all-Holds loaded [] b log w f = (w, f)
apply_all-Holds loaded (op ∷ ops) b log w f =
    let (w', g) = apply-Holds nothing loaded op b log w f in
    apply_all-Holds loaded ops (apply loaded op b log).0 (apply loaded op b log).1 w' g

abbrev pub buffer_calls : Bool → List BufferOp → List Call
unfolding cleanup
buffer_calls loaded ops =
    let (b, log) = apply_all loaded ops no_buffer [] in (cleanup loaded b log).1

-- Take a buffer through any allocations, registrations, clean-ups and assignments from new buffers, and
-- then through its destructor, whatever the allocator and the driver answer, with the table of verbs or
-- without. No memory is freed and no region deregistered more often than it was acquired by then, and in
-- the end each has been given back as often as it was acquired.
pub buffer_calls_lem :
    (loaded : Bool) (ops : List BufferOp)
    → Orderly (buffer_calls loaded ops)
      × ((j : Kind) (m : ℕ)
          → acquisitions j m (buffer_calls loaded ops) ≡ releases j m (buffer_calls loaded ops))
unfolding acquisitions releases total buffer_calls cleanup
buffer_calls_lem loaded ops =
    let (w, f) =
      apply_all-Holds loaded ops no_buffer [] (λ off. refl)
        (record { balanced = λ j m. omega arith; orderly = tt }) in
    let g =
      cleanup-Fits nothing loaded (apply_all loaded ops no_buffer []).0
        (apply_all loaded ops no_buffer []).1 w f in
    (g.orderly, λ j m. omega (arith, g.balanced j m))
