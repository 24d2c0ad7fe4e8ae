-- ===== src/Transport/Peers/Stepping.antt =====
-- Each operation and each move of csrc/transport/rdma/RdmaConnection.cpp leaves the driver with what the
-- connections own.
use mccl.Base.{
  ℕ, zero, suc, ◌≡◌, ◌≢◌, refl, subst, ◌∙◌, Bool-cases, Option-cases, inl, inr, Option, none, some,
  List, [], ◌∷◌, arith, ◌==◌, get_elem?, set, All, All-append, get_elem?-set_ne,
}
use mccl.Transport.Ledger.{Kind, Call, Fits, Fits-eq}
use mccl.Transport.Slots.{total, total-append, total-set}
use mccl.Transport.Connection.{
  Connection, closed, init, post_send, post_recv, post_rdma_write, post_rdma_read,
  post_rdma_write_with_imm, post_fence,
}
use mccl.Transport.Connection.Owned.{
  owned, IsWhole, IsEmpty, Holds, destroy-Holds, open_connection-Left, activate-Holds,
  use_pair-Holds, poll-Holds, local_destination-Holds,
}
use mccl.Transport.Peers.{
  Peers, on_slot, move_construct, move_assign, move_between, Op, opens, destroys, inits, activates,
  asks_destination, sends, receives, writes, reads, writes_imm, fences, polls, apply, Action, on,
  constructs, assigns, act,
}

-- `open` is for a connection without handles.
abbrev pub MayApply : Op → Connection → Type 0
MayApply (opens d) c = IsEmpty c
MayApply _ c = Unit

abbrev pub MayApplyTo : Op → Option Connection → Type 0
MayApplyTo op none = Unit
MayApplyTo op (some c) = MayApply op c

abbrev pub MayAct : Action → Peers → Type 0
MayAct (on i op) p = MayApplyTo op (get_elem? p.conns i)
MayAct (constructs j) p = Unit
MayAct (assigns i j) p = Unit

-- Every handle that is held is owned by one of the connections.
pub record IsBalanced (p : Peers) : Type 0 where
  pub whole : All IsWhole p.conns
  pub fits : Fits (λ j m. total (owned j m) p.conns) p.calls

module _ (others : Kind → ℕ → ℕ) where
  apply-Holds :
      (op : Op) (c : Connection) (log : List Call)
      → IsWhole c
      → MayApply op c
      → Holds others c log
      → IsWhole (apply op c log).0 × Holds others (apply op c log).0 (apply op c log).1
  unfolding apply init post_send post_recv post_rdma_write post_rdma_read post_rdma_write_with_imm
      post_fence
  apply-Holds (opens d) c log w may f =
      let (w', f', e) = open_connection-Left others d c log may f in (w', f')
  apply-Holds destroys c log w may f =
      let (e, w', f') = destroy-Holds others c log w f in
      (w', Fits-eq others _ _ (λ j m. ground (arith, e)) f')
  apply-Holds (inits port a) c log w may f = (w, use_pair-Holds others c _ a log f)
  apply-Holds (activates remote port a b) c log w may f =
      (w, activate-Holds others c remote port a b log f)
  apply-Holds (asks_destination port info) c log w may f =
      (w, local_destination-Holds others c port info log f)
  apply-Holds (sends sge wr_id a) c log w may f = (w, use_pair-Holds others c _ a log f)
  apply-Holds (receives sge wr_id a) c log w may f = (w, use_pair-Holds others c _ a log f)
  apply-Holds (writes sge addr rkey wr_id s a) c log w may f =
      (w, use_pair-Holds others c _ a log f)
  apply-Holds (reads sge addr rkey wr_id s a) c log w may f = (w, use_pair-Holds others c _ a log f)
  apply-Holds (writes_imm sge addr rkey imm wr_id a) c log w may f =
      (w, use_pair-Holds others c _ a log f)
  apply-Holds (fences wr_id a) c log w may f = (w, use_pair-Holds others c _ a log f)
  apply-Holds (polls max_wc a) c log w may f = (w, poll-Holds others c max_wc a log f)

All-set :
    (conns : List Connection) (i : ℕ) (c : Connection)
    → All IsWhole conns
    → IsWhole c
    → All IsWhole (set conns i c)
All-set [] i c all w = tt
All-set (x ∷ conns) zero c all w = (w, all.1)
All-set (x ∷ conns) (suc i) c all w = (all.0, All-set conns i c all.1 w)

All-get :
    (conns : List Connection) (i : ℕ) (c : Connection)
    → All IsWhole conns
    → get_elem? conns i ≡ some c
    → IsWhole c
All-get [] i c all e = cc
All-get (x ∷ conns) zero c all e = let same : x ≡ c = cc in subst IsWhole same all.0
All-get (x ∷ conns) (suc i) c all e = All-get conns i c all.1 e

pub closed-IsWhole : IsWhole closed
closed-IsWhole e = (refl, refl, refl, refl)

-- What the connections other than the one at `i` own.
abbrev besides : List Connection → ℕ → Kind → ℕ → ℕ
besides conns i j m = total (owned j m) (set conns i closed)

module _ (conns : List Connection) (i : ℕ) (c : Connection) (at : get_elem? conns i ≡ some c) where
  taken_out :
      (log : List Call) → Fits (λ j m. total (owned j m) conns) log → Holds (besides conns i) c log
  taken_out log f =
      Fits-eq _ _ log (λ j m. omega (arith, total-set (owned j m) conns i c closed at)) f

  put_back :
      (c' : Connection) (log : List Call)
      → Holds (besides conns i) c' log
      → Fits (λ j m. total (owned j m) (set conns i c')) log
  put_back c' log f =
      Fits-eq _ _ log
        (λ j m.
          omega (
            arith,
            total-set (owned j m) conns i c closed at,
            total-set (owned j m) conns i c c' at,
          ))
        f

on_slot-IsBalanced :
    (p : Peers) (i : ℕ) (op : Op)
    → MayApplyTo op (get_elem? p.conns i)
    → IsBalanced p
    → IsBalanced (on_slot p i (apply op))
unfolding on_slot
on_slot-IsBalanced p i op may b = elim (Option-cases (get_elem? p.conns i)) [
  | inl gone ↦ rw gone b
  | inr (c, at) ↦
      let may_c : MayApply op c = subst (MayApplyTo op) at may in
      let (w, f) =
        apply-Holds (besides p.conns i) op c p.calls (All-get p.conns i c b.whole at) may_c
          (taken_out p.conns i c at p.calls b.fits) in
      rw at (record { whole = All-set p.conns i _ b.whole w; fits = put_back p.conns i c at _ _ f })
]

total_one : (j : Kind) (m : ℕ) (c : Connection) → total (owned j m) (c ∷ []) ≡ owned j m c
unfolding total
total_one j m c = omega arith

move_construct-IsBalanced : (p : Peers) (j : ℕ) → IsBalanced p → IsBalanced (move_construct p j)
unfolding move_construct
move_construct-IsBalanced p j b = elim (Option-cases (get_elem? p.conns j)) [
  | inl gone ↦ rw gone b
  | inr (c, at) ↦ rw at (record {
    whole =
        All-append IsWhole (set p.conns j closed) (c ∷ [])
          (All-set p.conns j closed b.whole closed-IsWhole) (All-get p.conns j c b.whole at, tt);
    fits =
        Fits-eq _ _ p.calls
          (λ k m.
            omega
              (arith, total-append (owned k m) (set p.conns j closed) (c ∷ []), total_one k m c))
          (taken_out p.conns j c at p.calls b.fits);
  })
]

module _ (p : Peers) (i j : ℕ) (mine other : Connection) (apart : i ≢ j) (b : IsBalanced p) where
  move_between-IsBalanced :
      get_elem? p.conns i ≡ some mine
      → get_elem? p.conns j ≡ some other
      → IsBalanced (move_between p i j (some mine) (some other))
  move_between-IsBalanced at there =
      let (e, w, f) =
        destroy-Holds (besides p.conns i) mine p.calls (All-get p.conns i mine b.whole at)
          (taken_out p.conns i mine at p.calls b.fits) in
      let still : get_elem? (set p.conns i other) j ≡ some other =
        get_elem?-set_ne p.conns i j other apart ∙ there in
      record {
        whole =
            All-set (set p.conns i other) j closed
              (All-set p.conns i other b.whole (All-get p.conns j other b.whole there))
              closed-IsWhole;
        fits =
            Fits-eq _ _ _
              (λ k m. omega (
                arith,
                total-set (owned k m) p.conns i mine closed at,
                total-set (owned k m) p.conns i mine other at,
                total-set (owned k m) (set p.conns i other) j other closed still,
              ))
              f;
      }

move_assign-IsBalanced : (p : Peers) (i j : ℕ) → IsBalanced p → IsBalanced (move_assign p i j)
unfolding move_assign
move_assign-IsBalanced p i j b = elim (Bool-cases (i == j)) [
  | inl self ↦ rw self b
  | inr other_one ↦ rw other_one (elim (Option-cases (get_elem? p.conns i)) [
    | inl gone ↦ rw gone b
    | inr (mine, at) ↦ elim (Option-cases (get_elem? p.conns j)) [
      | inl gone ↦ rw (at, gone) b
      | inr (other, there) ↦
          rw (at, there) (move_between-IsBalanced p i j mine other (ground arith) b at there)
    ]
  ])
]

pub act-IsBalanced : (a : Action) (p : Peers) → MayAct a p → IsBalanced p → IsBalanced (act a p)
unfolding act
act-IsBalanced (on i op) p may b = on_slot-IsBalanced p i op may b
act-IsBalanced (constructs j) p may b = move_construct-IsBalanced p j b
act-IsBalanced (assigns i j) p may b = move_assign-IsBalanced p i j b
