-- ===== src/Transport/Connection/Owned.antt =====
-- What a connection of csrc/transport/rdma/RdmaConnection.cpp owns, and that each of its operations leaves
-- the driver with just that.
use mccl.Base.{
  ℕ, ◌+◌, ◌≡◌, refl, Bool, true, false, Option, none, some, List, ◌∷◌, arith, Bool-cases, inl, inr,
}
use mccl.Transport.Ledger.{
  Kind, context, domain, completions, pair, Usage, Call, acquired, hits, let_go, Fits,
  Fits-acquired, Fits-used, Fits-let_go, Fits-eq,
}
use mccl.Transport.Connection.{
  Connection, destroy, Driver, Opened, make_pair, make_queue, make_domain, make_context,
  Destination, ready_to_receive, ready_to_send, and_then, activate, give_up, open_connection,
  use_pair, on_pair, poll, on_queue, local_destination, queried, PortInfo,
}

abbrev pub owned : Kind → ℕ → Connection → ℕ
owned j m c =
    hits j m context c.ctx + hits j m domain c.pd + hits j m completions c.cq + hits j m pair c.qp

-- A connection without the table of verbs has no handles.
abbrev pub IsWhole : Connection → Type 0
IsWhole c = c.fns ≡ false → (c.ctx ≡ none) × (c.pd ≡ none) × (c.cq ≡ none) × (c.qp ≡ none)

abbrev pub IsEmpty : Connection → Type 0
IsEmpty c = (c.ctx ≡ none) × (c.pd ≡ none) × (c.cq ≡ none) × (c.qp ≡ none)

module _ (others : Kind → ℕ → ℕ) where
  -- The calls leave held what the connection owns and `others`.
  abbrev pub Holds : Connection → List Call → Type 0
  Holds c log = Fits (λ j m. owned j m c + others j m) log

  destroy_all :
      (x p q s : Option ℕ) (log : List Call)
      → Holds (record { fns = true; ctx = x; pd = p; cq = q; qp = s }) log
      → Fits others (let_go context x (let_go domain p (let_go completions q (let_go pair s log))))
  destroy_all x p q s log f =
      let no_pair =
        Fits-let_go _
          (λ j m. hits j m context x + hits j m domain p + hits j m completions q + others j m) pair
          s log (λ j m. omega arith) f in
      let no_queue =
        Fits-let_go _ (λ j m. hits j m context x + hits j m domain p + others j m) completions q _
          (λ j m. omega arith) no_pair in
      let no_domain =
        Fits-let_go _ (λ j m. hits j m context x + others j m) domain p _ (λ j m. omega arith)
          no_queue in
      Fits-let_go _ others context x _ (λ j m. omega arith) no_domain

  pub destroy-Holds :
      (c : Connection) (log : List Call)
      → IsWhole c
      → Holds c log
      → IsEmpty (destroy c log).0 × IsWhole (destroy c log).0 × Fits others (destroy c log).1
  unfolding destroy
  destroy-Holds c log w f = elim (Bool-cases c.fns) [
    | inl on ↦ rw on (
      (refl, refl, refl, refl),
      λ e. (refl, refl, refl, refl),
      destroy_all c.ctx c.pd c.cq c.qp log f,
    )
    | inr off ↦ rw off (w off, λ _. w off, Fits-eq _ others log (λ j m. ground (arith, w off)) f)
  ]

  abbrev pub Left : Opened → Type 0
  Left (c, log, ok) = IsWhole c × Holds c log × (ok ≡ false → IsEmpty c)

  given_up :
      (c : Connection) (log : List Call) → IsWhole c → Holds c log → Left (give_up (destroy c log))
  given_up c log w f =
      let (e, w', f') = destroy-Holds c log w f in
      (w', Fits-eq others _ _ (λ j m. ground (arith, e)) f', λ _. e)

  module _ (d : Driver) where
    make_pair-Left :
        (o : Option ℕ) (c : Connection) (log : List Call)
        → c.fns ≡ true
        → c.qp ≡ none
        → Holds c log
        → Left (make_pair o c log)
    unfolding make_pair
    make_pair-Left none c log on e f = given_up c log (λ off. cc) f
    make_pair-Left (some q) c log on e f =
        (λ off. cc, Fits-acquired _ _ pair q log (λ j m. ground arith) f, λ failed. cc)

    make_queue-Left :
        (o : Option ℕ) (c : Connection) (log : List Call)
        → c.fns ≡ true
        → c.cq ≡ none
        → c.qp ≡ none
        → Holds c log
        → Left (make_queue d o c log)
    unfolding make_queue
    make_queue-Left none c log on e e' f = given_up c log (λ off. cc) f
    make_queue-Left (some q) c log on e e' f =
        make_pair-Left d.create_qp (record c { cq = some q }) (acquired completions q ∷ log) on e'
          (Fits-acquired _ _ completions q log (λ j m. ground arith) f)

    make_domain-Left :
        (o : Option ℕ) (c : Connection) (log : List Call)
        → c.fns ≡ true
        → c.pd ≡ none
        → c.cq ≡ none
        → c.qp ≡ none
        → Holds c log
        → Left (make_domain d o c log)
    unfolding make_domain
    make_domain-Left none c log on e e' e'' f = given_up c log (λ off. cc) f
    make_domain-Left (some p) c log on e e' e'' f =
        make_queue-Left d.create_cq (record c { pd = some p }) (acquired domain p ∷ log) on e' e''
          (Fits-acquired _ _ domain p log (λ j m. ground arith) f)

    make_context-Left :
        (o : Option ℕ) (c : Connection) (log : List Call)
        → c.fns ≡ true
        → IsEmpty c
        → Holds c log
        → Left (make_context d o c log)
    unfolding make_context
    make_context-Left none c log on e f =
        (λ off. cc, Fits-eq _ _ log (λ j m. ground arith) f, λ failed. (refl, e.1, e.2, e.3))
    make_context-Left (some x) c log on e f =
        make_domain-Left d.alloc_pd (record c { ctx = some x }) (acquired context x ∷ log) on e.1
          e.2 e.3 (Fits-acquired _ _ context x log (λ j m. ground arith) f)

    -- A failed call leaves nothing held, a successful one what it acquired.
    pub open_connection-Left :
        (c : Connection) (log : List Call)
        → IsEmpty c
        → Holds c log
        → Left (open_connection d c log)
    unfolding open_connection
    open_connection-Left c log e f = elim (Bool-cases d.loaded) [
      | inl on ↦ elim (Bool-cases d.device) [
        | inl there ↦
            rw (on, there) (make_context-Left d.open_device (record c { fns = true }) log refl e f)
        | inr gone ↦ rw (on, gone) (λ off. cc, f, λ failed. e)
      ]
      | inr off ↦ rw off (λ _. e, f, λ failed. e)
    ]

  on_pair-Holds :
      (c : Connection) (o : Option ℕ) (u : Usage) (answer : Bool) (log : List Call)
      → c.qp ≡ o
      → Holds c log
      → Holds c (on_pair o u answer log).0
  on_pair-Holds c none u answer log e f = f
  on_pair-Holds c (some q) u answer log e f =
      Fits-used _
        (λ j m.
          hits j m context c.ctx + hits j m domain c.pd + hits j m completions c.cq + others j m)
        pair q log u (λ j m. ground arith) f

  pub use_pair-Holds :
      (c : Connection) (u : Usage) (answer : Bool) (log : List Call)
      → Holds c log
      → Holds c (use_pair c u answer log).0
  unfolding use_pair
  use_pair-Holds c u answer log f = elim (Bool-cases c.fns) [
    | inl on ↦ rw on (on_pair-Holds c c.qp u answer log refl f)
    | inr off ↦ rw off f
  ]

  on_queue-Holds :
      (c : Connection) (o : Option ℕ) (max_wc : ℕ) (answer : Option ℕ) (log : List Call)
      → c.cq ≡ o
      → Holds c log
      → Holds c (on_queue o max_wc answer log).0
  on_queue-Holds c none max_wc answer log e f = f
  on_queue-Holds c (some q) max_wc answer log e f =
      Fits-used _
        (λ j m. hits j m context c.ctx + hits j m domain c.pd + hits j m pair c.qp + others j m)
        completions q log _ (λ j m. ground arith) f

  pub poll-Holds :
      (c : Connection) (max_wc : ℕ) (answer : Option ℕ) (log : List Call)
      → Holds c log
      → Holds c (poll c max_wc answer log).0
  unfolding poll
  poll-Holds c max_wc answer log f = elim (Bool-cases c.fns) [
    | inl on ↦ rw on (on_queue-Holds c c.cq max_wc answer log refl f)
    | inr off ↦ rw off f
  ]

  queried-Holds :
      (c : Connection) (q x : Option ℕ) (port : ℕ) (info : PortInfo) (log : List Call)
      → c.ctx ≡ x
      → Holds c log
      → Holds c (queried q x port info log).0
  queried-Holds c none x port info log e f = f
  queried-Holds c (some q) none port info log e f = f
  queried-Holds c (some q) (some x) port info log e f =
      let rest : Kind → ℕ → ℕ =
        λ j m. hits j m domain c.pd + hits j m completions c.cq + hits j m pair c.qp + others j m in
      Fits-used _ rest context x _ _ (λ j m. ground arith)
        (Fits-used _ rest context x log _ (λ j m. ground arith) f)

  pub local_destination-Holds :
      (c : Connection) (port : ℕ) (info : PortInfo) (log : List Call)
      → Holds c log
      → Holds c (local_destination c port info log).0
  unfolding local_destination
  local_destination-Holds c port info log f = elim (Bool-cases c.fns) [
    | inl on ↦ rw on (queried-Holds c c.qp c.ctx port info log refl f)
    | inr off ↦ rw off f
  ]

  pub activate-Holds :
      (c : Connection) (remote : Destination) (port : ℕ) (first second : Bool) (log : List Call)
      → Holds c log
      → Holds c (activate c remote port first second log).0
  unfolding activate
  activate-Holds c remote port first second log f =
      second_step (use_pair c (ready_to_receive remote port) first log)
        (use_pair-Holds c (ready_to_receive remote port) first log f)
    where
      second_step :
          (r : List Call × Bool)
          → Holds c r.0
          → Holds c (and_then r (λ log'. use_pair c ready_to_send second log')).0
      second_step (log', true) g = use_pair-Holds c ready_to_send second log' g
      second_step (log', false) g = g
