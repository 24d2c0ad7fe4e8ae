-- ===== src/Runtime/Metrics.antt =====
-- csrc/runtime/Metrics.cpp: the operations in flight, the history of completed ones and the counters.
-- The mutex makes each call one step; the clock's readings, and durations with their sum, are
-- parameters. The averages of `summarize`, sums of doubles, are left out.
pub mod History
use mccl.Base.{
  ℕ, zero, suc, ◌+◌, ◌-◌, ◌%◌, ◌^◌, ◌≤◌, ◌<◌, ◌≡◌, refl, sym, ◌∙◌, ap, Bool, true, false, Option,
  none, some, List, [], ◌∷◌, ◌++◌, arith, length, length-append, drop, find, put, erase, find-put,
  find-erase_if, ltb, leb, ◌==◌, if◌then◌else◌,
}

-- A point in time is a number, and 0 stands for none.
pub record OpMetric (Ms : Type 0) : Type 0 where
  pub seq : ℕ
  pub op_name : ℕ
  pub bytes : ℕ
  pub start : ℕ
  pub execute_start : ℕ
  pub end : ℕ
  pub sync_ms : Ms
  pub network_ms : Ms
  pub reduce_ms : Ms

pub record Metrics (Ms : Type 0) : Type 0 where
  pub inflight : List (ℕ × OpMetric Ms)
  pub completed : List (OpMetric Ms)
  pub total_bytes_sent : ℕ
  pub total_bytes_recv : ℕ
  pub total_errors : ℕ

abbrev pub max_history : ℕ
max_history = 10000

-- The calls that change the metrics, with the clock's reading.
pub data Call (Ms : Type 0) : Type 0 where
  op_start : ℕ → ℕ → ℕ → ℕ → Call Ms
  op_execute_start : ℕ → ℕ → Call Ms
  op_end : ℕ → ℕ → Call Ms
  record_phase : ℕ → Ms → Ms → Ms → Call Ms
  record_transport_bytes : ℕ → Bool → Call Ms
  record_error : Call Ms
  reset : Call Ms

module _ {Ms : Type 0} (nought : Ms) (plus : Ms → Ms → Ms) where
  -- `inflight_.find(seq)`, and a change of what it finds.
  abbrev pub update_found :
      ℕ → (OpMetric Ms → OpMetric Ms) → Option (OpMetric Ms) → Metrics Ms → Metrics Ms
  update_found seq f none s = s
  update_found seq f (some m) s = record s { inflight = put seq (f m) s.inflight }

  -- The erase at the front of a history that has become too long.
  abbrev pub cut_history : List (OpMetric Ms) → List (OpMetric Ms)
  cut_history ms = if ltb max_history (length ms) then drop (length ms - max_history) ms else ms

  abbrev pub end_found : ℕ → ℕ → Option (OpMetric Ms) → Metrics Ms → Metrics Ms
  end_found seq now none s = s
  end_found seq now (some m) s = record s {
    inflight = erase seq s.inflight;
    completed = cut_history (s.completed ++ (record m { end = now } ∷ []));
  }

  unfoldable pub apply : Call Ms → Metrics Ms → Metrics Ms
  unfolding find put
  apply (op_start seq name bytes now) s = record s {
    inflight =
        put seq
          (record {
            seq = seq;
            op_name = name;
            bytes = bytes;
            start = now;
            execute_start = 0;
            end = 0;
            sync_ms = nought;
            network_ms = nought;
            reduce_ms = nought;
          })
          s.inflight;
  }
  apply (op_execute_start seq now) s =
      update_found seq (λ m. record m { execute_start = now }) (find seq s.inflight) s
  apply (op_end seq now) s = end_found seq now (find seq s.inflight) s
  apply (record_phase seq sync network reduce) s =
      update_found seq
        (λ m. record m {
          sync_ms = plus m.sync_ms sync;
          network_ms = plus m.network_ms network;
          reduce_ms = plus m.reduce_ms reduce;
        })
        (find seq s.inflight) s
  apply (record_transport_bytes bytes is_send) s =
      if is_send
      then record s { total_bytes_sent = (s.total_bytes_sent + bytes) % 2 ^ 64 }
      else record s { total_bytes_recv = (s.total_bytes_recv + bytes) % 2 ^ 64 }
  apply record_error s = record s { total_errors = (s.total_errors + 1) % 2 ^ 64 }
  apply reset s = record {
    inflight = [];
    completed = [];
    total_bytes_sent = 0;
    total_bytes_recv = 0;
    total_errors = 0;
  }

  unfoldable pub recent_ops : ℕ → Metrics Ms → List (OpMetric Ms)
  recent_ops n s =
      if leb (length s.completed) n then s.completed else drop (length s.completed - n) s.completed

  unfoldable pub replay : List (Call Ms) → Metrics Ms → Metrics Ms
  unfolding apply
  replay [] s = s
  replay (c ∷ cs) s = replay cs (apply c s)
