-- ===== src/Agent/Tests.antt =====
-- Runs of csrc/agent/Agent.cpp.
use mccl.Base.{ℕ, suc, ◌≡◌, false, some, List, [], ◌∷◌, arith}
use mccl.Agent.{Services, connection}
use mccl.Agent.Session.{
  Request, ping, register, shutdown, encode_all, replies, connection-encode_all,
}

-- A memory manager that numbers its regions.
abbrev numbering : Services ℕ
numbering = record {
  register_region = λ addr len flags s. some (s, suc s);
  unregister_region = λ id s. s;
  stats = λ s. (s, s, 0, 0);
  sync_throws = λ s. false;
}

abbrev requests : List Request
requests = ping ∷ register 4096 64 3 ∷ shutdown ∷ ping ∷ []

connection-encode_all_example :
    connection numbering 9 (encode_all requests) 0 ≡ replies numbering requests 0
connection-encode_all_example =
    connection-encode_all numbering 9 requests 0
      (tt, ((omega arith, omega arith, omega arith), (tt, (tt, tt)))) (omega arith)
