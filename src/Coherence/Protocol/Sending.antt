-- ===== src/Coherence/Protocol/Sending.antt =====
-- The messages of csrc/coherence/CoherenceProtocol.cpp on a node whose peers can all be reached.
use mathlib.Core.List.{append-nil, append_assoc}
use mccl.Base.{
  ℕ, zero, suc, ◌+◌, ◌≤◌, ◌<◌, ◌≡◌, ◌≢◌, refl, sym, ◌∙◌, ap, Bool, true, false, not, ◌&&◌, some,
  List, [], ◌∷◌, ◌++◌, arith, ◌==◌, if◌then◌else◌, find, ==_iff, ==_self,
}
use mccl.Coherence.Directory.{page_key, DirectoryEntry}
use mccl.Coherence.Directory.Pages.{entry_at-update_entry}
use mccl.Coherence.Node.{
  Message, Effect, sends, Node, Outcome, done, M, ◌>>◌, when, entry_of, page_index, send_message,
}
use mccl.Coherence.Protocol.{update, send_each}

-- There is a message buffer for every other node.
abbrev pub HasBuffers : Node → Type 0
HasBuffers n = (i : ℕ) → i < n.num_nodes → i ≢ n.node_id → (r : ℕ) × (find i n.msg_bufs ≡ some r)

abbrev pub logged : List Effect → Node → Node
logged ts n = record n { trace = n.trace ++ ts }

logged-logged : (ts us : List Effect) (n : Node) → logged us (logged ts n) ≡ logged (ts ++ us) n
logged-logged ts us n = λ i. record n { trace = append_assoc n.trace ts us i }

logged-nil : (n : Node) → logged [] n ≡ n
logged-nil n = λ i. record n { trace = append-nil n.trace i }

after : M → Outcome × Node → Outcome × Node
after k r = elim r.0 [ done ↦ k r.1 | other ↦ (other, r.1) ]

pub >>-done : (m k : M) (n n' : Node) → m n ≡ (done, n') → (m >> k) n ≡ k n'
unfolding after
>>-done m k n n' e = ap (after k) e

pub when-logged :
    (b : Bool) (m : M) (ts : List Effect) (n : Node)
    → (b ≡ true → m n ≡ (done, logged ts n))
    → when b m n ≡ (done, logged (if b then ts else []) n)
when-logged true m ts n h = h refl
when-logged false m ts n h = λ i. (done, sym (logged-nil n) i)

-- The messages that the loop over the nodes sends.
abbrev pub sends_to : (ℕ → Bool) → Message → ℕ → ℕ → ℕ → List Effect
sends_to wanted msg self zero i = []
sends_to wanted msg self (suc k) i =
    (if not (i == self) && wanted i then sends i msg ∷ [] else [])
    ++ sends_to wanted msg self k (i + 1)

-- The entry of the message's page after a change of it.
pub entry_of-update :
    (msg : Message) (f : DirectoryEntry → DirectoryEntry) (n : Node)
    → entry_of msg (update msg f n).1 ≡ f (entry_of msg n)
unfolding update
entry_of-update msg f n =
    let q : ℕ = msg.page_addr.region_id in
    let s : ℕ = page_index msg.page_addr.offset in
    entry_at-update_entry q s q s f n.directory ∙ rw (==_self (page_key q s))

module _ (delivers : ℕ → Bool) (open_links : (i : ℕ) → delivers i ≡ true) where
  pub send_message_lem :
      (target : ℕ) (msg : Message) (n : Node) {r : ℕ}
      → find target n.msg_bufs ≡ some r
      → send_message delivers target msg n ≡ (done, logged (sends target msg ∷ []) n)
  unfolding send_message
  send_message_lem target msg n e = rw (e, send_message) (rw (open_links target))

  pub send_each_lem :
      (wanted : ℕ → Bool) (msg : Message) (k i : ℕ) (n : Node)
      → HasBuffers n
      → i + k ≤ n.num_nodes
      → send_each delivers wanted msg k i n ≡ (done, logged (sends_to wanted msg n.node_id k i) n)
  unfolding send_each
  send_each_lem wanted msg zero i n h le = λ j. (done, sym (logged-nil n) j)
  send_each_lem wanted msg (suc k) i n h le =
      let b = not (i == n.node_id) && wanted i in
      let now = if b then sends i msg ∷ [] else [] in
      let rest = sends_to wanted msg n.node_id k (i + 1) in
      let first : when b (send_message delivers i msg) n ≡ (done, logged now n) =
        when-logged b (send_message delivers i msg) (sends i msg ∷ []) n (λ e.
          send_message_lem i msg n (h i (omega arith) (λ q. cc ((==_iff i n.node_id).1 q, e))).1) in
      >>-done (when b (send_message delivers i msg)) (send_each delivers wanted msg k (i + 1)) n
        (logged now n) first
      ∙ send_each_lem wanted msg k (i + 1) (logged now n) h (omega arith)
      ∙ (λ j. (done, logged-logged now rest n j))
