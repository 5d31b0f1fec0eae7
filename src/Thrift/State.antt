-- ===== src/Thrift/State.antt =====
-- Sessions and operations: src/thrift/state.rs. An `Instant` is a number of nanoseconds, and where the
-- code reads the clock the model takes the instant as an argument. `R` is the type of query results.
use harborsql.Base.{
  ℕ, ◌-◌, ◌/◌, ◌%◌, ◌^◌, Bool, true, false, Option, none, some, Bytes, ascii, leb, if◌then◌else◌,
}
use harborsql.Error.{ClientError, status_message, internal}
use harborsql.Thrift.Protocol.{
  success_status, error_status, running_state, finished_state, canceled_state, error_state,
}

pub record SessionState : Type 0 where
  pub id : Bytes
  pub secret : Bytes
  pub token_fingerprint : Bytes
  pub catalog : Bytes
  pub schema : Bytes
  pub last_access : ℕ

-- `now.saturating_duration_since(then) >= limit`.
abbrev pub has_passed : ℕ → ℕ → ℕ → Bool
has_passed now since limit = leb limit (now - since)

unfoldable pub session_is_expired : SessionState → ℕ → ℕ → Bool
session_is_expired s now idle_timeout = has_passed now s.last_access idle_timeout

-- `Result<QueryResult, ClientError>`
pub data Outcome (R : Type 0) : Type 0 where
  success : R → Outcome R
  failure : ClientError → Outcome R

pub record OperationCompletion (R : Type 0) : Type 0 where
  pub duration_ms : ℕ
  pub result : Outcome R

-- `Result<OperationCompletion, JoinError>`: what awaiting a task gives.
pub data Joined (R : Type 0) : Type 0 where
  completed : OperationCompletion R → Joined R
  task_cancelled task_panicked : Joined R

-- A `JoinHandle`: the outcome, once the runtime has one.
abbrev pub Task : Type 0 → Type 0
Task R = Option (Joined R)

pub data OperationExecution (R : Type 0) : Type 0 where
  running : ℕ → Task R → OperationExecution R
  refreshing : ℕ → OperationExecution R
  finished : R → ℕ → ℕ → OperationExecution R
  failed : ClientError → ℕ → ℕ → OperationExecution R
  canceled : ℕ → ℕ → OperationExecution R

pub record OperationState (R : Type 0) : Type 0 where
  pub secret : Bytes
  pub session_id : Bytes
  pub token_fingerprint : Bytes
  pub state : OperationExecution R

-- `started.elapsed().as_millis() as u64`
unfoldable pub elapsed_ms : ℕ → ℕ → ℕ
elapsed_ms now started = (now - started) / 1_000_000 % 2 ^ 64

module _ {R : Type 0} where
  unfoldable pub is_active : OperationExecution R → Bool
  is_active (running started task) = true
  is_active (refreshing started) = true
  is_active _ = false

  unfoldable pub from_completion : ℕ → OperationCompletion R → OperationExecution R
  from_completion now c = elim c.result [
    | success r ↦ finished r c.duration_ms now
    | failure e ↦ failed e c.duration_ms now
  ]

  unfoldable pub from_join_result : ℕ → ℕ → Joined R → OperationExecution R
  unfolding from_completion elapsed_ms
  from_join_result now started (completed c) = from_completion now c
  from_join_result now started task_cancelled = canceled (elapsed_ms now started) now
  from_join_result now started task_panicked = failed internal (elapsed_ms now started) now

  unfoldable pub result : OperationExecution R → Option R
  result (finished r duration completed_at) = some r
  result _ = none

  unfoldable pub status_code : OperationExecution R → ℕ
  status_code (failed e duration completed_at) = error_status
  status_code _ = success_status

  unfoldable pub operation_state : OperationExecution R → ℕ
  operation_state (running started task) = running_state
  operation_state (refreshing started) = running_state
  operation_state (finished r duration completed_at) = finished_state
  operation_state (failed e duration completed_at) = error_state
  operation_state (canceled duration completed_at) = canceled_state

  unfoldable pub duration_ms : ℕ → OperationExecution R → ℕ
  unfolding elapsed_ms
  duration_ms now (running started task) = elapsed_ms now started
  duration_ms now (refreshing started) = elapsed_ms now started
  duration_ms now (finished r duration completed_at) = duration
  duration_ms now (failed e duration completed_at) = duration
  duration_ms now (canceled duration completed_at) = duration

  unfoldable pub history_status : OperationExecution R → Bytes
  history_status (running started task) = ascii "RUNNING"
  history_status (refreshing started) = ascii "RUNNING"
  history_status (finished r duration completed_at) = ascii "FINISHED"
  history_status (failed e duration completed_at) = ascii "FAILED"
  history_status (canceled duration completed_at) = ascii "CANCELED"

  unfoldable pub error_message : OperationExecution R → Option Bytes
  error_message (running started task) =
      some (ascii "OPERATION_RUNNING: operation is still running")
  error_message (refreshing started) = some (ascii "OPERATION_RUNNING: operation is still running")
  error_message (failed e duration completed_at) = some (status_message e)
  error_message (canceled duration completed_at) =
      some (ascii "OPERATION_CANCELED: operation was canceled")
  error_message (finished r duration completed_at) = none

  unfoldable pub execution_is_expired : OperationExecution R → ℕ → ℕ → Bool
  execution_is_expired (running started task) now ttl = false
  execution_is_expired (refreshing started) now ttl = false
  execution_is_expired (finished r duration completed_at) now ttl = has_passed now completed_at ttl
  execution_is_expired (failed e duration completed_at) now ttl = has_passed now completed_at ttl
  execution_is_expired (canceled duration completed_at) now ttl = has_passed now completed_at ttl

  unfoldable pub is_expired : OperationState R → ℕ → ℕ → Bool
  unfolding execution_is_expired
  is_expired o now ttl = execution_is_expired o.state now ttl

  unfoldable pub task_is_finished : OperationExecution R → Bool
  task_is_finished (running started task) = elim task [ some j ↦ true | none ↦ false ]
  task_is_finished _ = false

  unfoldable pub has_finished_task : OperationState R → Bool
  unfolding task_is_finished
  has_finished_task o = task_is_finished o.state

  abbrev pub with_state : OperationState R → OperationExecution R → OperationState R
  with_state o s = record o { state = s }

  -- The operation that is left, and the start and the task that were taken from it.
  unfoldable pub taken :
      OperationState R → OperationExecution R → OperationState R × Option (ℕ × Task R)
  taken o (running started task) = (with_state o (refreshing started), some (started, task))
  taken o s = (with_state o s, none)

  unfoldable pub take_finished_task : OperationState R → OperationState R × Option (ℕ × Task R)
  unfolding has_finished_task taken
  take_finished_task o = if has_finished_task o then taken o o.state else (o, none)

  unfoldable pub refreshed : ℕ → ℕ → Joined R → OperationExecution R → OperationExecution R
  unfolding from_join_result
  refreshed now started joined (refreshing _) = from_join_result now started joined
  refreshed now started joined s = s

  unfoldable pub finish_refresh : ℕ → OperationState R → ℕ → Joined R → OperationState R
  unfolding refreshed
  finish_refresh now o started joined = with_state o (refreshed now started joined o.state)

  unfoldable pub task_to_abort : OperationExecution R → Bool
  task_to_abort (running started task) = true
  task_to_abort _ = false

  -- Whether `abort` tells a task of the runtime to stop; the state stays what it is.
  unfoldable pub abort : OperationState R → Bool
  unfolding task_to_abort
  abort o = task_to_abort o.state

  unfoldable pub canceled_now : ℕ → OperationExecution R → OperationExecution R
  unfolding duration_ms
  canceled_now now (running started task) = canceled (duration_ms now (running started task)) now
  canceled_now now s = s

  -- The canceled state drops the handle of the task, which is aborted before.
  unfoldable pub cancel : ℕ → OperationState R → OperationState R
  unfolding canceled_now
  cancel now o = with_state o (canceled_now now o.state)
