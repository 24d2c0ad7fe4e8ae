-- ===== src/Agent/Session.antt =====
-- A session with the agent of csrc/agent/Agent.cpp, request by request.
use mathlib.Core.List.{append_assoc}
use mccl.Base.{
  ℕ, zero, suc, ◌<◌, ◌^◌, ◌≡◌, refl, ◌∙◌, ap, Bool, Bool-cases, Option-cases, inl, inr, true, false,
  ◌||◌, none, some, List, [], ◌∷◌, ◌++◌, arith, length, All, ◌==◌, if◌then◌else◌, le_bytes,
  length-le_bytes, le_value-le_bytes,
}
use mccl.Collective.Messages.{received, recv_bytes}
use mccl.Agent.{
  Services, command, ok, err_memory, err_metal, header, Reply, answer, registered, stats_bytes,
  status_code, on_register, handle, on_header, connection,
}
use mccl.Agent.Fields.{
  header_length, header_code, recv_exact, register_bytes, register_length, first_part, second_part,
  third_part,
}

-- A request with its arguments; the bytes of a shader run are not looked at.
pub data Request : Type 0 where
  ping : Request
  register : ℕ → ℕ → ℕ → Request
  deregister : ℕ → Request
  shader_load : Request
  shader_run : List ℕ → Request
  shader_sync : Request
  stats : Request
  shutdown : Request

-- `AgentCmd` by its number.
abbrev pub code_of : Request → ℕ
code_of ping = 0x0001
code_of (register addr len flags) = 0x0010
code_of (deregister id) = 0x0011
code_of shader_load = 0x0020
code_of (shader_run bytes) = 0x0021
code_of shader_sync = 0x0022
code_of stats = 0x0030
code_of shutdown = 0xFFFF

abbrev pub payload : Request → List ℕ
payload ping = []
payload (register addr len flags) = le_bytes 8 addr ++ (le_bytes 8 len ++ le_bytes 1 flags)
payload (deregister id) = le_bytes 4 id
payload shader_load = []
payload (shader_run bytes) = bytes
payload shader_sync = []
payload stats = []
payload shutdown = []

-- The bytes of a request as the agent reads them.
abbrev pub encode : Request → List ℕ
encode r = header (code_of r) 0 (length (payload r)) ++ payload r

abbrev pub encode_all : List Request → List ℕ
encode_all [] = []
encode_all (r ∷ rs) = encode r ++ encode_all rs

-- Arguments that fit their fields.
abbrev pub IsRequest : Request → Type 0
IsRequest ping = Unit
IsRequest (register addr len flags) = (addr < 2 ^ 64) × (len < 2 ^ 64) × (flags < 2 ^ 8)
IsRequest (deregister id) = id < 2 ^ 32
IsRequest shader_load = Unit
IsRequest (shader_run bytes) = length bytes ≡ 81
IsRequest shader_sync = Unit
IsRequest stats = Unit
IsRequest shutdown = Unit

-- Whether the agent goes on after a request.
abbrev pub goes_on : Request → Bool
goes_on ping = true
goes_on (register addr len flags) = true
goes_on (deregister id) = true
goes_on shader_load = true
goes_on (shader_run bytes) = true
goes_on shader_sync = true
goes_on stats = true
goes_on shutdown = false

module _ {S : Type 0} (services : Services S) where
  -- What is meant to be answered to a request, and what becomes of the memory manager.
  abbrev pub reply_to : Request → S → List ℕ × S
  reply_to ping s = (header 0x0001 0 0, s)
  reply_to (register addr len flags) s =
      if addr == 0 || len == 0
      then (header 0x0010 2 0, s)
      else elim (services.register_region addr len flags s) [
        | none ↦ (header 0x0010 2 0, s)
        | some (id, t) ↦ (header 0x0010 0 8 ++ (le_bytes 4 id ++ le_bytes 4 0), t)
      ]
  reply_to (deregister id) s = (header 0x0011 0 0, services.unregister_region id s)
  reply_to shader_load s = (header 0x0020 0xFFFF 0, s)
  reply_to (shader_run bytes) s = (header 0x0021 0 0, s)
  reply_to shader_sync s = (header 0x0022 (if services.sync_throws s then 3 else 0) 0, s)
  reply_to stats s = (header 0x0030 0 45 ++ stats_bytes services s, s)
  reply_to shutdown s = (header 0xFFFF 0 0, s)

  -- A session: nothing that follows a shutdown is answered.
  abbrev pub replies : List Request → S → List ℕ × S
  replies [] s = ([], s)
  replies (r ∷ rs) s =
      let now = reply_to r s in
      let later = replies rs now.1 in if goes_on r then (now.0 ++ later.0, later.1) else now

module _ {S : Type 0} (services : Services S) where
  abbrev meant : Request → List ℕ → S → Reply S
  meant r rest s = record {
    output = (reply_to services r s).0;
    rest = rest;
    state = (reply_to services r s).1;
    running = goes_on r;
  }

  registered-meant :
      (addr len flags : ℕ) (rest : List ℕ) (s : S)
      → (if addr == 0 || len == 0
          then answer services 0x0010 err_memory rest s
          else registered services 0x0010 rest s (services.register_region addr len flags s))
        ≡ meant (register addr len flags) rest s
  registered-meant addr len flags rest s = elim (Bool-cases (addr == 0 || len == 0)) [
    | inl null ↦ rw null refl
    | inr real ↦ rw real (elim (Option-cases (services.register_region addr len flags s)) [
      | inl refused ↦ rw refused refl
      | inr (region, done) ↦ rw done refl
    ])
  ]

  on_register-meant :
      (addr len flags : ℕ) (rest : List ℕ) (s : S)
      → IsRequest (register addr len flags)
      → on_register services 0x0010 s (received (register_bytes addr len flags) rest)
        ≡ meant (register addr len flags) rest s
  on_register-meant addr len flags rest s (h_addr, h_len, h_flags) =
      rw (first_part addr len flags) (
        rw (second_part addr len flags) (
          rw (third_part addr len flags) (
            rw (le_value-le_bytes 8 addr h_addr) (
              rw (le_value-le_bytes 8 len h_len) (
                rw (le_value-le_bytes 1 flags h_flags) (registered-meant addr len flags rest s))))))

  sync-meant : (b : Bool) → status_code (if b then err_metal else ok) ≡ (if b then 3 else 0)
  sync-meant true = refl
  sync-meant false = refl

  handle-meant :
      (r : Request) (rest : List ℕ) (s : S)
      → IsRequest r
      → handle services (code_of r) (command (code_of r)) (payload r ++ rest) s ≡ meant r rest s
  unfolding handle command
  handle-meant ping rest s h = refl
  handle-meant (register addr len flags) rest s h =
      rw (recv_exact 17 (register_bytes addr len flags) rest (register_length addr len flags))
        (on_register-meant addr len flags rest s h)
  handle-meant (deregister id) rest s h =
      rw (recv_exact 4 (le_bytes 4 id) rest (length-le_bytes 4 id))
        (rw (le_value-le_bytes 4 id h) refl)
  handle-meant shader_load rest s h = refl
  handle-meant (shader_run bytes) rest s h = rw (recv_exact 81 bytes rest h) refl
  handle-meant shader_sync rest s h = rw (sync-meant (services.sync_throws s)) refl
  handle-meant stats rest s h = refl
  handle-meant shutdown rest s h = refl

  encode_received :
      (r : Request) (rest : List ℕ)
      → recv_bytes 8 (encode r ++ rest)
        ≡ received (header (code_of r) 0 (length (payload r))) (payload r ++ rest)
  encode_received r rest =
      let hdr : List ℕ = header (code_of r) 0 (length (payload r)) in
      ap (recv_bytes 8) (append_assoc hdr (payload r) rest)
      ∙ recv_exact 8 hdr (payload r ++ rest) (header_length (code_of r) 0 (length (payload r)))

  code_small : (r : Request) → code_of r < 2 ^ 16
  code_small ping = omega arith
  code_small (register addr len flags) = omega arith
  code_small (deregister id) = omega arith
  code_small shader_load = omega arith
  code_small (shader_run bytes) = omega arith
  code_small shader_sync = omega arith
  code_small stats = omega arith
  code_small shutdown = omega arith

  on_header-meant :
      (r : Request) (rest : List ℕ) (s : S) (next : List ℕ → S → List ℕ × S)
      → IsRequest r
      → on_header services next s (recv_bytes 8 (encode r ++ rest)) ≡ (
          let now = reply_to services r s in
          let later = next rest now.1 in
          if goes_on r then (now.0 ++ later.0, later.1) else (now.0, now.1))
  unfolding on_header
  on_header-meant r rest s next h = rw (encode_received r rest) (
      rw (header_code (code_of r) 0 (length (payload r)) (code_small r))
        (rw (handle-meant r rest s h) refl))

  -- The agent answers a session of requests one by one, each with its own answer, until a shutdown,
  -- and an end of the stream ends it. The conditions are that the arguments fit their fields, that a
  -- shader run has 81 bytes and that the fuel is more than the number of requests.
  pub connection-encode_all :
      (fuel : ℕ) (rs : List Request) (s : S)
      → All IsRequest rs
      → length rs < fuel
      → connection services fuel (encode_all rs) s ≡ replies services rs s
  unfolding connection on_header recv_bytes
  connection-encode_all zero rs s h enough = absurd (omega arith)
  connection-encode_all (suc fuel) [] s h enough = refl
  connection-encode_all (suc fuel) (r ∷ rs) s h enough =
      let now : List ℕ × S = reply_to services r s in
      on_header-meant r (encode_all rs) s (connection services fuel) h.0
      ∙ ap (λ (l : List ℕ × S). if goes_on r then (now.0 ++ l.0, l.1) else now)
          (connection-encode_all fuel rs now.1 h.1 (omega arith))
