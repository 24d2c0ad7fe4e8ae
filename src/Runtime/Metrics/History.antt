-- ===== src/Runtime/Metrics/History.antt =====
-- The history of completed operations of csrc/runtime/Metrics.cpp.
use mccl.Base.{
  ℕ, zero, suc, ◌+◌, ◌-◌, ◌≤◌, min, ◌≡◌, refl, ◌∙◌, ap, Bool-cases, true, false, inl, inr, Option,
  none, some, List, [], ◌∷◌, ◌++◌, arith, length, length-append, drop, find, put, erase, find-put,
  find-erase_if, ltb, leb, ◌==◌,
}
use mccl.Runtime.Metrics.{
  OpMetric, Metrics, max_history, Call, op_start, op_execute_start, op_end, record_phase,
  record_transport_bytes, record_error, reset, update_found, cut_history, end_found, apply,
  recent_ops, replay,
}

module _ {Ms : Type 0} where
  length-drop : (n : ℕ) (xs : List (OpMetric Ms)) → length (drop n xs) ≡ length xs - n
  length-drop zero xs = omega arith
  length-drop (suc n) [] = omega arith
  length-drop (suc n) (x ∷ xs) = omega (arith, length-drop n xs)

  drop-append :
      (n : ℕ) (xs : List (OpMetric Ms)) (x : OpMetric Ms)
      → n ≤ length xs
      → drop n (xs ++ (x ∷ [])) ≡ drop n xs ++ (x ∷ [])
  drop-append zero xs x h = refl
  drop-append (suc n) [] x h = absurd (omega arith)
  drop-append (suc n) (y ∷ ys) x h = drop-append n ys x (omega arith)

  drop_all : (xs : List (OpMetric Ms)) → drop (length xs) xs ≡ []
  drop_all [] = refl
  drop_all (x ∷ xs) = drop_all xs

module _ {Ms : Type 0} (nought : Ms) (plus : Ms → Ms → Ms) where
  abbrev pub IsBounded : Metrics Ms → Type 0
  IsBounded s = length s.completed ≤ max_history

  cut_history-le : (ms : List (OpMetric Ms)) → length (cut_history nought plus ms) ≤ max_history
  cut_history-le ms = ground (arith, length-drop (length ms - max_history) ms)

  update_found-IsBounded :
      (seq : ℕ) (f : OpMetric Ms → OpMetric Ms) (o : Option (OpMetric Ms)) (s : Metrics Ms)
      → IsBounded s
      → IsBounded (update_found nought plus seq f o s)
  update_found-IsBounded seq f none s h = h
  update_found-IsBounded seq f (some m) s h = h

  end_found-IsBounded :
      (seq now : ℕ) (o : Option (OpMetric Ms)) (s : Metrics Ms)
      → IsBounded s
      → IsBounded (end_found nought plus seq now o s)
  end_found-IsBounded seq now none s h = h
  end_found-IsBounded seq now (some m) s h =
      cut_history-le (s.completed ++ (record m { end = now } ∷ []))

  apply-IsBounded : (c : Call Ms) (s : Metrics Ms) → IsBounded s → IsBounded (apply nought plus c s)
  unfolding apply
  apply-IsBounded (op_start seq name bytes now) s h = h
  apply-IsBounded (op_execute_start seq now) s h =
      update_found-IsBounded seq _ (find seq s.inflight) s h
  apply-IsBounded (op_end seq now) s h = end_found-IsBounded seq now (find seq s.inflight) s h
  apply-IsBounded (record_phase seq sync network reduce) s h =
      update_found-IsBounded seq _ (find seq s.inflight) s h
  apply-IsBounded (record_transport_bytes bytes true) s h = h
  apply-IsBounded (record_transport_bytes bytes false) s h = h
  apply-IsBounded record_error s h = h
  apply-IsBounded reset s h = omega arith

  replay-IsBounded :
      (cs : List (Call Ms)) (s : Metrics Ms) → IsBounded s → IsBounded (replay nought plus cs s)
  unfolding replay
  replay-IsBounded [] s h = h
  replay-IsBounded (c ∷ cs) s h =
      replay-IsBounded cs (apply nought plus c s) (apply-IsBounded c s h)

  -- Whatever calls are made, the history holds at most 10000 operations, and `recent_ops` gives as many
  -- as are asked for or as there are. The condition is that the history is not longer at the start.
  pub length-recent_ops :
      (cs : List (Call Ms)) (s : Metrics Ms) (n : ℕ)
      → IsBounded s
      → let u = replay nought plus cs s in
        (length (recent_ops nought plus n u) ≡ min n (length u.completed))
        × (length u.completed ≤ max_history)
  unfolding recent_ops
  length-recent_ops cs s n h =
      let u = replay nought plus cs s in
      (ground (arith, length-drop (length u.completed - n) u.completed), replay-IsBounded cs s h)

  last_of :
      (xs : List (OpMetric Ms)) (x : OpMetric Ms)
      → drop (length (xs ++ (x ∷ [])) - 1) (xs ++ (x ∷ [])) ≡ x ∷ []
  last_of xs x =
      let count : length (xs ++ (x ∷ [])) - 1 ≡ length xs =
        omega (arith, length-append xs (x ∷ [])) in
      ap (λ n. drop n (xs ++ (x ∷ []))) count
      ∙ drop-append (length xs) xs x (omega arith)
      ∙ ap (λ l. l ++ (x ∷ [])) (drop_all xs)

  cut_history-keeps :
      (xs : List (OpMetric Ms)) (x : OpMetric Ms)
      → (ys : List (OpMetric Ms)) × (cut_history nought plus (xs ++ (x ∷ [])) ≡ ys ++ (x ∷ []))
  cut_history-keeps xs x =
      let n : ℕ = length (xs ++ (x ∷ [])) - max_history in
      elim (Bool-cases (ltb max_history (length (xs ++ (x ∷ []))))) [
        | inl long ↦
            rw long ((drop n xs, drop-append n xs x (omega (arith, length-append xs (x ∷ [])))))
        | inr short ↦ rw short ((xs, refl))
      ]

  find-put_self :
      (k : ℕ) (m : OpMetric Ms) (infl : List (ℕ × OpMetric Ms)) → find k (put k m infl) ≡ some m
  find-put_self k m infl = ground (arith, find-put k k m infl)

  alone : (ys : List (OpMetric Ms)) (x : OpMetric Ms) → length ys ≤ 0 → ys ++ (x ∷ []) ≡ x ∷ []
  alone [] x h = refl
  alone (y ∷ ys) x h = absurd (omega arith)

  find-erase_self : (k : ℕ) (infl : List (ℕ × OpMetric Ms)) → find k (erase k infl) ≡ none
  find-erase_self k infl = ground (arith, find-erase_if (λ j. j == k) k infl)

  recent_last :
      (ys : List (OpMetric Ms)) (x : OpMetric Ms) (u : Metrics Ms)
      → u.completed ≡ ys ++ (x ∷ [])
      → recent_ops nought plus 1 u ≡ x ∷ []
  unfolding recent_ops
  recent_last ys x u e =
      let long : length (ys ++ (x ∷ [])) ≡ length ys + 1 = length-append ys (x ∷ []) in
      rw e (elim (Bool-cases (leb (length (ys ++ (x ∷ []))) 1)) [
        | inl one ↦ rw one (alone ys x (ground arith))
        | inr more ↦ rw more (last_of ys x)
      ])

  -- An operation that starts, begins to execute and ends stands last in the history, with its times,
  -- its size and its name, and is no longer in flight, whatever was recorded before.
  pub recent_ops-op_end :
      (s : Metrics Ms) (seq name bytes t₀ t₁ t₂ : ℕ)
      → let u =
          replay nought plus
            (op_start seq name bytes t₀ ∷ op_execute_start seq t₁ ∷ op_end seq t₂ ∷ [])
            s in
        (recent_ops nought plus 1 u
          ≡ record {
            seq = seq;
            op_name = name;
            bytes = bytes;
            start = t₀;
            execute_start = t₁;
            end = t₂;
            sync_ms = nought;
            network_ms = nought;
            reduce_ms = nought;
          }
            ∷ [])
        × (find seq u.inflight ≡ none)
  unfolding replay apply
  recent_ops-op_end s seq name bytes t₀ t₁ t₂ =
      let m₀ : OpMetric Ms = record {
        seq = seq;
        op_name = name;
        bytes = bytes;
        start = t₀;
        execute_start = 0;
        end = 0;
        sync_ms = nought;
        network_ms = nought;
        reduce_ms = nought;
      } in
      let m₁ : OpMetric Ms = record m₀ { execute_start = t₁ } in
      let begun : List (ℕ × OpMetric Ms) = put seq m₀ s.inflight in
      let (ys, e) = cut_history-keeps s.completed (record m₁ { end = t₂ }) in
      rw (find-put_self seq m₀ s.inflight) (
        rw (find-put_self seq m₁ begun)
          ((recent_last ys (record m₁ { end = t₂ }) _ e, find-erase_self seq (put seq m₁ begun))))
