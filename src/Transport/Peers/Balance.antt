-- ===== src/Transport/Peers/Balance.antt =====
-- No handle of csrc/transport/rdma/RdmaConnection.cpp is lost, released twice or used after its release.
use mccl.Base.{ℕ, zero, suc, ◌≡◌, refl, List, [], ◌∷◌, arith, All}
use mccl.Transport.Ledger.{Kind, Call, acquisitions, releases, Orderly, Fits}
use mccl.Transport.Slots.{total}
use mccl.Transport.Connection.{Connection, closed, destroy}
use mccl.Transport.Connection.Owned.{owned, IsWhole, destroy-Holds}
use mccl.Transport.Peers.{Peers, Action, act, act_all, destroy_all}
use mccl.Transport.Peers.Stepping.{MayAct, IsBalanced, act-IsBalanced, closed-IsWhole}

-- Each `open` of a sequence finds its connection without handles.
unfoldable pub MayActAll : List Action → Peers → Type 0
MayActAll [] p = Unit
MayActAll (a ∷ actions) p = MayAct a p × MayActAll actions (act a p)

act_all-IsBalanced :
    (actions : List Action) (p : Peers)
    → MayActAll actions p
    → IsBalanced p
    → IsBalanced (act_all actions p)
unfolding act_all MayActAll
act_all-IsBalanced [] p may b = b
act_all-IsBalanced (a ∷ actions) p may b =
    act_all-IsBalanced actions (act a p) may.1 (act-IsBalanced a p may.0 b)

abbrev nothing : Kind → ℕ → ℕ
nothing j m = 0

destroy_all-Fits :
    (conns : List Connection) (log : List Call)
    → All IsWhole conns
    → Fits (λ j m. total (owned j m) conns) log
    → Fits nothing (destroy_all conns log)
unfolding destroy_all total
destroy_all-Fits [] log all f = f
destroy_all-Fits (c ∷ conns) log all f =
    let (e, w, g) = destroy-Holds (λ j m. total (owned j m) conns) c log all.0 f in
    destroy_all-Fits conns (destroy c log).1 all.1 g

abbrev pub constructed : ℕ → List Connection
constructed zero = []
constructed (suc n) = closed ∷ constructed n

constructed-IsWhole : (n : ℕ) → All IsWhole (constructed n)
constructed-IsWhole zero = tt
constructed-IsWhole (suc n) = (closed-IsWhole, constructed-IsWhole n)

total-constructed : (n : ℕ) (j : Kind) (m : ℕ) → total (owned j m) (constructed n) ≡ 0
unfolding total
total-constructed zero j m = refl
total-constructed (suc n) j m = omega (arith, total-constructed n j m)

abbrev pub start : ℕ → Peers
start n = record { conns = constructed n; calls = [] }

start-IsBalanced : (n : ℕ) → IsBalanced (start n)
unfolding acquisitions releases
start-IsBalanced n = record {
  whole = constructed-IsWhole n;
  fits = record { balanced = λ j m. omega (arith, total-constructed n j m); orderly = tt };
}

abbrev pub all_calls : ℕ → List Action → List Call
all_calls n actions = let p = act_all actions (start n) in destroy_all p.conns p.calls

-- Take `n` connections through any sequence of their operations and of moves between them in which `open`
-- finds its connection without handles, and then through their destructors, whatever the driver answers.
-- Each call to release a handle, or to use one, names a handle that has been acquired more often than
-- released by then, and in the end every handle has been released as often as it was acquired.
pub all_calls_lem :
    (n : ℕ) (actions : List Action)
    → MayActAll actions (start n)
    → Orderly (all_calls n actions)
      × ((j : Kind) (m : ℕ)
          → acquisitions j m (all_calls n actions) ≡ releases j m (all_calls n actions))
all_calls_lem n actions may =
    let b = act_all-IsBalanced actions (start n) may (start-IsBalanced n) in
    let f =
      destroy_all-Fits (act_all actions (start n)).conns (act_all actions (start n)).calls b.whole
        b.fits in
    (f.orderly, λ j m. omega (arith, f.balanced j m))
