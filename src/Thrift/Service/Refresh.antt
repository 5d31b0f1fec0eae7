-- ===== src/Thrift/Service/Refresh.antt =====
-- The outcome of an ended task: `refresh_operation` of src/thrift.rs, which takes the task under one lock and
-- writes the outcome under another.
use harborsql.Base.{
  ℕ, ◌-◌, ◌/◌, ◌%◌, ◌^◌, ascii, ◌≡◌, refl, sym, ap, ◌∙◌, Bool, true, false, Option, some, Bytes,
  bytes_eq, bytes_eq_iff, if◌then◌else◌,
}
use harborsql.Base.Dict.{get, update, map_some, get-update}
use harborsql.Error.{ClientError, internal}
use harborsql.Thrift.State.{
  OperationState, OperationExecution, Outcome, success, failure, running, refreshing, finished,
  failed, canceled, Joined, completed, task_cancelled, task_panicked, from_completion, elapsed_ms,
  with_state, has_finished_task, task_is_finished, taken, take_finished_task, finish_refresh,
  refreshed, from_join_result,
}
use harborsql.Thrift.Service.{Service, refresh_operation, put_refreshed, taken_task, awaited}

-- The state that the outcome of a task leads to.
pub data EndsAs {R : Type 0} (now started : ℕ) : Joined R → OperationExecution R → Type 0 where
  with_result :
      {r : R} {duration : ℕ}
      → EndsAs now started
          (completed (record { duration_ms = duration; result = success r }))
          (finished r duration now)
  with_error :
      {e : ClientError} {duration : ℕ}
      → EndsAs now started
          (completed (record { duration_ms = duration; result = failure e }))
          (failed e duration now)
  when_cancelled :
      EndsAs now started task_cancelled (canceled ((now - started) / 1_000_000 % 2 ^ 64) now)
  when_panicked : EndsAs now started task_panicked (
      failed
        (record { code = ascii "INTERNAL_ERROR"; message = ascii "internal server error" })
        ((now - started) / 1_000_000 % 2 ^ 64)
        now)

module _ {R : Type 0} where
  take_running :
      (o : OperationState R) (started : ℕ) (joined : Joined R)
      → o.state ≡ running started (some joined)
      → take_finished_task o ≡ (with_state o (refreshing started), some (started, some joined))
  unfolding take_finished_task has_finished_task task_is_finished taken
  take_running o started joined e = rw e refl

  refreshing_ends :
      (now started : ℕ) (joined : Joined R) (o : OperationState R)
      → awaited now started (some joined) (with_state o (refreshing started))
        ≡ with_state o (from_join_result now started joined)
  unfolding finish_refresh refreshed
  refreshing_ends now started joined o = refl

  abbrev without_task : Bytes → Service R → Service R
  without_task id s = record s {
    operations = update id (λ o. (take_finished_task o).0) s.operations;
  }

  refresh_operation_lem :
      (id : Bytes) (now started : ℕ) (joined : Joined R) (o : OperationState R) (s : Service R)
      → get id s.operations ≡ some o
      → o.state ≡ running started (some joined)
      → refresh_operation id now s
        ≡ put_refreshed id now (some (started, some joined)) (without_task id s)
  unfolding refresh_operation
  refresh_operation_lem id now started joined o s e r =
      ap (λ x. put_refreshed id now x (without_task id s))
        (ap taken_task e ∙ ap (λ p. p.1) (take_running o started joined r))

  outcome_written :
      (now started : ℕ) (joined : Joined R) (o : OperationState R)
      → o.state ≡ running started (some joined)
      → awaited now started (some joined) (take_finished_task o).0
        ≡ with_state o (from_join_result now started joined)
  outcome_written now started joined o r =
      ap (λ p. awaited now started (some joined) p.0) (take_running o started joined r)
      ∙ refreshing_ends now started joined o

  written_at :
      (b : Bool) (now started : ℕ) (joined : Joined R) (o : OperationState R)
      (p : Option (OperationState R))
      → o.state ≡ running started (some joined)
      → (b ≡ true → p ≡ some o)
      → (if b
          then map_some
              (awaited now started (some joined))
              (if b then map_some (λ o. (take_finished_task o).0) p else p)
          else (if b then map_some (λ o. (take_finished_task o).0) p else p))
        ≡ (if b then some (with_state o (from_join_result now started joined)) else p)
  written_at true now started joined o p r h =
      ap
        (λ q.
          map_some (awaited now started (some joined)) (map_some (λ o. (take_finished_task o).0) q))
        (h refl)
      ∙ ap some (outcome_written now started joined o r)
  written_at false now started joined o p r h = refl

  from_completion-EndsAs :
      (now started duration : ℕ) (outcome : Outcome R)
      → EndsAs now started
          (completed (record { duration_ms = duration; result = outcome }))
          (from_completion now (record { duration_ms = duration; result = outcome }))
  unfolding from_completion
  from_completion-EndsAs now started duration (success r) = with_result
  from_completion-EndsAs now started duration (failure e) = with_error

  from_join_result-EndsAs :
      (now started : ℕ) (joined : Joined R)
      → EndsAs now started joined (from_join_result now started joined)
  unfolding from_join_result elapsed_ms internal
  from_join_result-EndsAs now started (completed c) =
      from_completion-EndsAs now started c.duration_ms c.result
  from_join_result-EndsAs now started task_cancelled = when_cancelled
  from_join_result-EndsAs now started task_panicked = when_panicked

  -- When the task of the operation under an id has ended, `refresh_operation` gives that operation the state
  -- that the outcome leads to: finished with the result of the task, or failed with its error, each with
  -- the duration that the task gives; canceled when the task was cancelled, and failed with the internal
  -- error when it panicked, each with the milliseconds since the start, reduced to 64 bits; completed now in all cases. Every
  -- other operation stays as it was.
  pub refresh_operation-outcome :
      (id : Bytes) (now started : ℕ) (joined : Joined R) (o : OperationState R) (s : Service R)
      → get id s.operations ≡ some o
      → o.state ≡ running started (some joined)
      → (state : OperationExecution R) × EndsAs now started joined state
        × ((j : Bytes)
            → get j (refresh_operation id now s).operations
              ≡ (if bytes_eq id j then some (with_state o state) else get j s.operations))
  refresh_operation-outcome id now started joined o s e r = (
    from_join_result now started joined,
    from_join_result-EndsAs now started joined,
    λ j.
        ap (λ s'. get j s'.operations) (refresh_operation_lem id now started joined o s e r)
        ∙ get-update id j (awaited now started (some joined)) (without_task id s).operations
        ∙ ap (λ q. if bytes_eq id j then map_some (awaited now started (some joined)) q else q)
            (get-update id j (λ o. (take_finished_task o).0) s.operations)
        ∙ written_at (bytes_eq id j) now started joined o (get j s.operations) r
            (λ x. ap (λ k. get k s.operations) (sym ((bytes_eq_iff id j).0 x)) ∙ e),
  )
