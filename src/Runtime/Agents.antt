-- ===== src/Runtime/Agents.antt =====
-- The agents of csrc/runtime/DistributedMetalRuntime.cpp: their connections, the data-parallel dispatch to
-- them by the head, and its end. `stoi` and the socket's `connect` are parameters; what goes over the
-- sockets is kept as events, and the calls of the coherence protocol are those of Coherence.
pub mod Dispatching
use mccl.Base.{
  ℕ, zero, suc, ◌+◌, ◌%◌, ◌^◌, ◌≡◌, Bool, true, false, not, ◌&&◌, Option, none, some, List, [], ◌∷◌,
  ◌++◌, ◌==◌, ltb, ◌>>=◌, if◌then◌else◌, find, put, erase, erase_if, length,
}
use mccl.Dmem.Address.{GlobalAddress}
use mccl.Mesh.Endpoint.{split_last}
use mccl.Coherence.Node.{
  Message, Node, Outcome, done, no_message_buffer, put_failed, null_source, M, ◌>>◌,
}
use mccl.Coherence.Cache.{read_page, write_page_done}
use mccl.Coherence.Protocol.BarrierAll.{head_barrier}

pub record Binding : Type 0 where
  pub buffer : GlobalAddress
  pub is_input : Bool
  pub is_output : Bool

-- What `dispatch` reads of a node's work.
pub record Work : Type 0 where
  pub node_id : ℕ
  pub grid_size : ℕ
  pub bindings : List Binding

pub data Event : Type 0 where
  barrier_all : Event
  sends_run : (node element_count : ℕ) → Event
  sends_sync : (node : ℕ) → Event
  sends_shutdown : (node : ℕ) → Event
  reads_answer : (node : ℕ) → Event
  closes : (sock : ℕ) → Event

pub record Library : Type 0 where
  pub path : List ℕ
  pub bytes : List ℕ
  pub handle : ℕ

-- `socks` is `agent_socks_`.
pub record Runtime : Type 0 where
  pub socks : List (ℕ × ℕ)
  pub node_ids : List ℕ
  pub libraries : List Library

-- The parts of `host:port`. Without a colon `rfind` gives `npos`, and both are the whole text.
abbrev pub host_and_port : List ℕ → Option (List ℕ × List ℕ) → List ℕ × List ℕ
host_and_port s none = (s, s)
host_and_port s (some (host, port)) = (host, port)

module _ (stoi : List ℕ → Option ℕ) (connect_to_agent : List ℕ → ℕ → Option ℕ) where
  abbrev pub with_agent : ℕ → Option ℕ → Runtime → Runtime
  with_agent i none rt = rt
  with_agent i (some sock) rt =
      let nid = (i + 1) % 2 ^ 16 in
      record rt { socks = put nid sock rt.socks; node_ids = rt.node_ids ++ (nid ∷ []) }

  -- The connection of one agent; none is the exception of `stoi`.
  unfoldable pub dial : List ℕ → Option (Option ℕ)
  unfolding split_last
  dial s =
      let (host, port) = host_and_port s (split_last s) in
      stoi port >>= λ p. some (connect_to_agent host (p % 2 ^ 16))

  -- The loop of the constructor from the host `i` on.
  unfoldable pub connect_agents : ℕ → List (List ℕ) → Runtime → Option Runtime
  unfolding dial put
  connect_agents i [] rt = some rt
  connect_agents i (s ∷ hosts) rt =
      dial s >>= λ sock. connect_agents (i + 1) hosts (with_agent i sock rt)

  unfoldable pub construct : Bool → List (List ℕ) → Option Runtime
  unfolding connect_agents
  construct is_head hosts =
      let rt : Runtime = record { socks = []; node_ids = []; libraries = [] } in
      if is_head then connect_agents 0 hosts rt else some rt

abbrev pub has_sock : ℕ → Option ℕ → Bool
has_sock node none = false
has_sock node (some sock) = true

-- An agent loads the library by its path: nothing is sent.
unfoldable pub push_library_to_agent : Runtime → (node handle : ℕ) → Bool
unfolding find
push_library_to_agent rt node handle =
    ltb handle (length rt.libraries) && has_sock node (find node rt.socks)

-- `content` is what the file holds, none if it cannot be opened.
unfoldable pub load_library :
    Runtime → (path : List ℕ) → (content : Option (List ℕ)) → Option (ℕ × Runtime)
load_library rt path none = none
load_library rt path (some bytes) =
    let handle = length rt.libraries in
    some (
      handle,
      record rt {
        libraries = rt.libraries ++ (record { path = path; bytes = bytes; handle = handle } ∷ []);
      },
    )

-- The buffers of a node's work that lie on another node.
unfoldable pub remote_bindings : (Binding → Bool) → ℕ → List Binding → List GlobalAddress
remote_bindings wanted node [] = []
remote_bindings wanted node (b ∷ bs) =
    if wanted b && not (b.buffer.node_id == node)
    then b.buffer ∷ remote_bindings wanted node bs
    else remote_bindings wanted node bs

unfoldable pub all_remote : (Binding → Bool) → List Work → List GlobalAddress
unfolding remote_bindings
all_remote wanted [] = []
all_remote wanted (w ∷ works) =
    remote_bindings wanted w.node_id w.bindings ++ all_remote wanted works

-- The loops over the works that skip those without a connection.
unfoldable pub to_connected : List (ℕ × ℕ) → (Work → Event) → List Work → List Event
unfolding find
to_connected socks event [] = []
to_connected socks event (w ∷ works) =
    if has_sock w.node_id (find w.node_id socks)
    then event w ∷ to_connected socks event works
    else to_connected socks event works

-- How a call ends: it returns, throws, or waits for ever.
pub data Ending : Type 0 where
  returns throws waits : Ending

abbrev pub ending : Outcome → Ending
ending done = returns
ending no_message_buffer = throws
ending put_failed = throws
ending null_source = throws

-- The answers of the agents are read whatever they are.
abbrev pub run_agents : Runtime → List Work → List Event
run_agents rt works =
    to_connected rt.socks (λ w. sends_run w.node_id w.grid_size) works
    ++ to_connected rt.socks (λ w. reads_answer w.node_id) works

unfoldable pub write_pages_done : List GlobalAddress → Node → Node
unfolding write_page_done
write_pages_done [] n = n
write_pages_done (a ∷ as') n = write_pages_done as' (write_page_done a n)

module _ (delivers : ℕ → Bool) where
  -- The loop that reads the remote inputs.
  unfoldable pub read_inputs : List GlobalAddress → M
  unfolding read_page
  read_inputs [] n = (done, n)
  read_inputs (a ∷ as') n = let rest = read_inputs as' in (read_page delivers a false >> rest) n

  -- What follows the first `barrier_all`; `after` are the messages handled during the second one.
  unfoldable pub run_works :
      List (Message × ℕ) → Runtime → List Work → Outcome × Node → Ending × List Event × Node
  unfolding to_connected all_remote write_pages_done head_barrier
  run_works after rt works (done, n) =
      let m = write_pages_done (all_remote (λ b. b.is_output) works) n in
      elim (head_barrier delivers after m) [
        | none ↦ (waits, run_agents rt works, m)
        | some (o, m') ↦ (ending o, run_agents rt works, m')
      ]
  run_works after rt works (no_message_buffer, n) = (throws, [], n)
  run_works after rt works (put_failed, n) = (throws, [], n)
  run_works after rt works (null_source, n) = (throws, [], n)

  -- The first `barrier_all`, with the messages `before` handled meanwhile, and what follows.
  unfoldable pub meet_and_run :
      (before after : List (Message × ℕ))
      → Runtime
      → List Work
      → Outcome × Node
      → Ending × List Event × Node
  unfolding run_works head_barrier
  meet_and_run before after rt works (done, n) = elim (head_barrier delivers before n) [
    | none ↦ (waits, [], n)
    | some met ↦ run_works after rt works met
  ]
  meet_and_run before after rt works (no_message_buffer, n) = (throws, [], n)
  meet_and_run before after rt works (put_failed, n) = (throws, [], n)
  meet_and_run before after rt works (null_source, n) = (throws, [], n)

  -- How the dispatch on the head ends, what it sends to the agents and reads from them, and the node.
  unfoldable pub dispatch_data_parallel :
      (before after : List (Message × ℕ)) → Runtime → List Work → Node → Ending × List Event × Node
  unfolding read_inputs all_remote meet_and_run
  dispatch_data_parallel before after rt works n =
      meet_and_run before after rt works (read_inputs (all_remote (λ b. b.is_input) works) n)

unfoldable pub sync_agents : List (ℕ × ℕ) → List Event
sync_agents [] = []
sync_agents ((node, sock) ∷ socks) = sends_sync node ∷ (reads_answer node ∷ sync_agents socks)

unfoldable pub sync_all : Runtime → List Event
unfolding sync_agents
sync_all rt = sync_agents rt.socks ++ (barrier_all ∷ [])

abbrev pub hang_up : Runtime → ℕ → Option ℕ → Runtime × List Event
hang_up rt node none = (rt, [])
hang_up rt node (some sock) =
    (record rt { socks = erase node rt.socks }, sends_shutdown node ∷ (closes sock ∷ []))

unfoldable pub disconnect_agent : Runtime → ℕ → Runtime × List Event
unfolding find erase_if
disconnect_agent rt node = hang_up rt node (find node rt.socks)
