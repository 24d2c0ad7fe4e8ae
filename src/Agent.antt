-- ===== src/Agent.antt =====
-- `handle_connection` of csrc/agent/Agent.cpp with the messages of csrc/agent/Protocol.hpp: the commands
-- of one connection, as the bytes that arrive and the bytes that are answered. The memory manager and
-- the GPU are parameters. Structures are sent as they lie in memory; all sends succeed. The flag
-- `g_running` is changed by this connection only.
pub mod Fields
pub mod Session
mod Tests
use mccl.Base.{
  ℕ, zero, suc, ◌+◌, Bool, true, false, not, ◌||◌, Option, none, some, List, [], ◌∷◌, ◌++◌, take,
  drop, ◌==◌, if◌then◌else◌, le_bytes, le_value,
}
use mccl.Collective.Messages.{Received, received, tag_mismatch, size_mismatch, waits, recv_bytes}

-- What the agent calls: registration may throw; `stats` are the four counters; `sync_throws` says
-- whether `metal_sync` throws.
pub record Services (S : Type 0) : Type 0 where
  pub register_region : ℕ → ℕ → ℕ → S → Option (ℕ × S)
  pub unregister_region : ℕ → S → S
  pub stats : S → ℕ × ℕ × ℕ × ℕ
  pub sync_throws : S → Bool

pub data AgentCmd : Type 0 where
  ping : AgentCmd
  register : AgentCmd
  deregister : AgentCmd
  shader_run : AgentCmd
  shader_sync : AgentCmd
  stats : AgentCmd
  shutdown : AgentCmd
  unhandled : AgentCmd

-- The `switch`; `SHADER_LOAD` has no case of its own.
unfoldable pub command : ℕ → AgentCmd
command code =
    if code == 0x0001
    then ping
    else if code == 0x0010
    then register
    else if code == 0x0011
    then deregister
    else if code == 0x0021
    then shader_run
    else if code == 0x0022
    then shader_sync
    else if code == 0x0030
    then stats
    else if code == 0xFFFF
    then shutdown
    else unhandled

pub data AgentStatus : Type 0 where
  ok : AgentStatus
  err_memory : AgentStatus
  err_metal : AgentStatus
  err_internal : AgentStatus

abbrev pub status_code : AgentStatus → ℕ
status_code ok = 0
status_code err_memory = 2
status_code err_metal = 3
status_code err_internal = 0xFFFF

-- `AgentHeader`
unfoldable pub header : ℕ → ℕ → ℕ → List ℕ
header code status payload_len = le_bytes 2 code ++ (le_bytes 2 status ++ le_bytes 4 payload_len)

-- What the body of the loop leaves: the answer, what is left of the stream, the memory manager and
-- whether to go on.
pub record Reply (S : Type 0) : Type 0 where
  pub output : List ℕ
  pub rest : List ℕ
  pub state : S
  pub running : Bool

abbrev pub zeros : ℕ → List ℕ
zeros zero = []
zeros (suc n) = 0 ∷ zeros n

-- The code of the command in a header.
abbrev pub command_code : List ℕ → ℕ
command_code hdr = le_value (take 2 hdr)

module _ {S : Type 0} (services : Services S) where
  -- An answer without a payload.
  abbrev pub answer : ℕ → AgentStatus → List ℕ → S → Reply S
  answer code status rest s = record {
    output = header code (status_code status) 0;
    rest = rest;
    state = s;
    running = true;
  }

  abbrev pub registered : ℕ → List ℕ → S → Option (ℕ × S) → Reply S
  registered code rest s none = answer code err_memory rest s
  registered code rest s (some (id, t)) = record {
    output = header code 0 8 ++ (le_bytes 4 id ++ le_bytes 4 0);
    rest = rest;
    state = t;
    running = true;
  }

  -- `RegisterRequest`: the address, the length and the flags.
  abbrev pub on_register : ℕ → S → Received (List ℕ) → Reply S
  on_register code s (received req rest) =
      let addr = le_value (take 8 req) in
      let len = le_value (take 8 (drop 8 req)) in
      let flags = le_value (drop 16 req) in
      if addr == 0 || len == 0
      then answer code err_memory rest s
      else registered code rest s (services.register_region addr len flags s)
  on_register code s tag_mismatch = answer code err_memory [] s
  on_register code s size_mismatch = answer code err_memory [] s
  on_register code s waits = answer code err_memory [] s

  abbrev pub on_deregister : ℕ → S → Received (List ℕ) → Reply S
  on_deregister code s (received req rest) =
      answer code ok rest (services.unregister_region (le_value req) s)
  on_deregister code s tag_mismatch = record { output = []; rest = []; state = s; running = true }
  on_deregister code s size_mismatch = record { output = []; rest = []; state = s; running = true }
  on_deregister code s waits = record { output = []; rest = []; state = s; running = true }

  abbrev pub on_shader_run : ℕ → S → Received (List ℕ) → Reply S
  on_shader_run code s (received req rest) = answer code ok rest s
  on_shader_run code s tag_mismatch = answer code err_metal [] s
  on_shader_run code s size_mismatch = answer code err_metal [] s
  on_shader_run code s waits = answer code err_metal [] s

  -- The first 45 bytes of `StatsResponse`: the counters, and the fields that are 0.
  abbrev pub stats_bytes : S → List ℕ
  stats_bytes s =
      let (put_bytes, get_bytes, put_ops, get_ops) = services.stats s in
      le_bytes 8 put_bytes
      ++ (le_bytes 8 get_bytes ++ (le_bytes 8 put_ops ++ (le_bytes 8 get_ops ++ zeros 13)))

  unfoldable pub handle : ℕ → AgentCmd → List ℕ → S → Reply S
  unfolding header
  handle code ping rest s = answer code ok rest s
  handle code register rest s = on_register code s (recv_bytes 17 rest)
  handle code deregister rest s = on_deregister code s (recv_bytes 4 rest)
  handle code shader_run rest s = on_shader_run code s (recv_bytes 81 rest)
  handle code shader_sync rest s =
      answer code (if services.sync_throws s then err_metal else ok) rest s
  handle code stats rest s = record {
    output = header code 0 45 ++ stats_bytes s;
    rest = rest;
    state = s;
    running = true;
  }
  handle code shutdown rest s = record {
    output = header code 0 0;
    rest = rest;
    state = s;
    running = false;
  }
  handle code unhandled rest s = answer code err_internal rest s

  -- The body of the loop, with what follows it.
  unfoldable pub on_header : (List ℕ → S → List ℕ × S) → S → Received (List ℕ) → List ℕ × S
  unfolding handle command
  on_header next s (received hdr rest) =
      let code = command_code hdr in
      let reply = handle code (command code) rest s in
      let later = next reply.rest reply.state in
      if reply.running then (reply.output ++ later.0, later.1) else (reply.output, reply.state)
  on_header next s tag_mismatch = ([], s)
  on_header next s size_mismatch = ([], s)
  on_header next s waits = ([], s)

  -- The loop: the bytes that are answered and the memory manager at the end. Each passage takes a
  -- header of 8 bytes, so the length of the stream is enough fuel.
  unfoldable pub connection : ℕ → List ℕ → S → List ℕ × S
  unfolding on_header
  connection zero stream s = ([], s)
  connection (suc fuel) stream s = on_header (connection fuel) s (recv_bytes 8 stream)
