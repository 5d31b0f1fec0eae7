-- ===== src/Results/Limits.antt =====
-- The limits on a result: `materialize_stream` of src/engine/results.rs.
use harborsql.Base.{
  ℕ, ◌+◌, ◌^◌, ◌≤◌, ◌<◌, ◌≡◌, refl, sym, ap, ◌∙◌, false, Option, none, some, List, [], ◌∷◌, map,
  arith, Bool-cases, inl, inr,
}
use harborsql.Results.Batches.{RecordBatches}
use harborsql.Results.{
  saturating_add, count_rows, ResultLimits, Materialized, complete, stopped, exceeds, with_batch,
  materialize_from, materialize_stream,
}

module _ (r : RecordBatches) where
  -- The memory that batches hold, as a sum that stays at the greatest `usize`.
  unfoldable pub sum_memory : ℕ → List r.RecordBatch → ℕ
  sum_memory bytes [] = bytes
  sum_memory bytes (b ∷ bs) = sum_memory (saturating_add bytes (r.memory_size b)) bs

  module _ (l : ResultLimits) where
    -- A stream that became a result.
    pub record IsComplete (stream : List (Option r.RecordBatch)) (rows bytes : ℕ)
        (bs : List r.RecordBatch) (total_rows total_bytes : ℕ) : Type 0 where
      pub all_batches : stream ≡ map some bs
      pub counted : total_rows ≡ rows + count_rows r bs
      pub summed : total_bytes ≡ sum_memory bytes bs

    abbrev Completes :
        List (Option r.RecordBatch) → ℕ → ℕ → Materialized (List r.RecordBatch) → Type 0
    Completes stream rows bytes (complete bs total_rows total_bytes) =
        IsComplete stream rows bytes bs total_rows total_bytes
    Completes stream rows bytes (stopped e) = Unit

    Completes-next :
        (b : r.RecordBatch) (stream : List (Option r.RecordBatch)) (rows bytes : ℕ)
        (m : Materialized (List r.RecordBatch))
        → Completes stream (rows + r.num_rows b) (saturating_add bytes (r.memory_size b)) m
        → Completes (some b ∷ stream) rows bytes (with_batch r b m)
    unfolding count_rows sum_memory
    Completes-next b stream rows bytes (stopped e) h = tt
    Completes-next b stream rows bytes (complete bs total_rows total_bytes) h = record {
      all_batches = ap (λ zs. some b ∷ zs) h.all_batches;
      counted = omega (arith, h.counted);
      summed = h.summed;
    }

    materialize_from-Completes :
        (rows bytes : ℕ) (stream : List (Option r.RecordBatch))
        → Completes stream rows bytes (materialize_from r l rows bytes stream)
    unfolding materialize_from count_rows sum_memory
    materialize_from-Completes rows bytes [] = record {
      all_batches = refl;
      counted = omega arith;
      summed = refl;
    }
    materialize_from-Completes rows bytes (none ∷ stream) = tt
    materialize_from-Completes rows bytes (some b ∷ stream) =
        elim (Bool-cases (exceeds l.max_rows (rows + r.num_rows b))) [
          | inl x ↦ rw x tt
          | inr x ↦
              elim (Bool-cases (exceeds l.max_bytes (saturating_add bytes (r.memory_size b)))) [
                | inl y ↦ rw (x, y) tt
                | inr y ↦
                    rw (x, y)
                      (Completes-next b stream rows bytes _ (
                        materialize_from-Completes (rows + r.num_rows b)
                          (saturating_add bytes (r.memory_size b)) stream))
              ]
        ]

    -- A stream that becomes a result gave no error, and the result has all its batches in their order, with
    -- the sums of their rows and of their memory.
    pub materialize_stream-IsComplete :
        (stream : List (Option r.RecordBatch)) (bs : List r.RecordBatch) (rows bytes : ℕ)
        → materialize_stream r l stream ≡ complete bs rows bytes
        → IsComplete stream 0 0 bs rows bytes
    unfolding materialize_stream
    materialize_stream-IsComplete stream bs rows bytes e =
        rw_result (materialize_from-Completes 0 0 stream) e
      where
        rw_result :
            {m : Materialized (List r.RecordBatch)}
            → Completes stream 0 0 m
            → m ≡ complete bs rows bytes
            → IsComplete stream 0 0 bs rows bytes
        rw_result h e = rw (e) at h

    -- At most the limit, if there is one.
    abbrev pub IsWithin : Option ℕ → ℕ → Type 0
    IsWithin none n = Unit
    IsWithin (some limit) n = n ≤ limit

    within-exceeds : (o : Option ℕ) (n : ℕ) → IsWithin o n → exceeds o n ≡ false
    within-exceeds none n h = refl
    within-exceeds (some limit) n h = ground (arith, h)

    exceeds-monotone : (o : Option ℕ) (a b : ℕ) → a ≤ b → exceeds o b ≡ false → exceeds o a ≡ false
    exceeds-monotone none a b h e = refl
    exceeds-monotone (some limit) a b h e = ground (arith, h, e)

    sum_memory-le :
        (bytes : ℕ) (bs : List r.RecordBatch) → bytes < 2 ^ 64 → bytes ≤ sum_memory bytes bs
    unfolding sum_memory
    sum_memory-le bytes [] h = omega arith
    sum_memory-le bytes (b ∷ bs) h =
        omega (arith, h, sum_memory-le (saturating_add bytes (r.memory_size b)) bs (omega arith))

    materialize_from-complete :
        (rows bytes : ℕ) (bs : List r.RecordBatch)
        → bytes < 2 ^ 64
        → exceeds l.max_rows (rows + count_rows r bs) ≡ false
        → exceeds l.max_bytes (sum_memory bytes bs) ≡ false
        → materialize_from r l rows bytes (map some bs)
          ≡ complete bs (rows + count_rows r bs) (sum_memory bytes bs)
    unfolding materialize_from count_rows sum_memory
    materialize_from-complete rows bytes [] w x y = ap (λ n. complete [] n bytes) (omega arith)
    materialize_from-complete rows bytes (b ∷ bs) w x y =
        let bytes' = saturating_add bytes (r.memory_size b) in
        let w' : bytes' < 2 ^ 64 = omega arith in
        let same : rows + (r.num_rows b + count_rows r bs) ≡ rows + r.num_rows b + count_rows r bs =
          omega arith in
        let few =
          exceeds-monotone l.max_rows (rows + r.num_rows b)
            (rows + (r.num_rows b + count_rows r bs)) (omega arith) x in
        let light =
          exceeds-monotone l.max_bytes bytes' (sum_memory bytes' bs) (sum_memory-le bytes' bs w')
            y in
        rw (few, light)
          (ap (with_batch r b) (
              materialize_from-complete (rows + r.num_rows b) bytes' bs w'
                (ap (exceeds l.max_rows) (sym same) ∙ x) y)
            ∙ ap (λ n. complete (b ∷ bs) n (sum_memory bytes' bs)) (sym same))

    -- A stream of batches without an error, whose rows and whose memory together are within the limits that
    -- are set, becomes a result with all its batches in their order.
    pub materialize_stream-complete :
        (bs : List r.RecordBatch)
        → IsWithin l.max_rows (count_rows r bs)
        → IsWithin l.max_bytes (sum_memory 0 bs)
        → materialize_stream r l (map some bs) ≡ complete bs (count_rows r bs) (sum_memory 0 bs)
    unfolding materialize_stream
    materialize_stream-complete bs x y =
        let zero_plus : 0 + count_rows r bs ≡ count_rows r bs = omega arith in
        materialize_from-complete 0 0 bs (omega arith)
          (ap (exceeds l.max_rows) zero_plus ∙ within-exceeds l.max_rows _ x)
          (within-exceeds l.max_bytes _ y)
        ∙ ap (λ n. complete bs n (sum_memory 0 bs)) zero_plus
