-- ===== src/Thrift/Service/Handlers.antt =====
-- What each method of `handle_decoded` does to the service: src/thrift.rs. Decoding and the bytes of the
-- responses are in `Requests` and `Responses`; a handler returns what the response is written from.
-- `Uuid::new_v4` gives the ids and the secrets, which are arguments. The work of a query runs on a task:
-- the operation is inserted with a task that has no outcome, and `task_finished` is the runtime.
use harborsql.Base.{
  ℕ, Bool, true, false, Option, none, some, ◌∷◌, Bytes, bytes_eq, leb, length, if◌then◌else◌,
}
use harborsql.Base.Dict.{get, insert, update, remove}
use harborsql.Thrift.Requests.{Handle, OpenSessionReq}
use harborsql.Thrift.State.{
  SessionState, OperationState, OperationExecution, running, OperationCompletion, Joined, abort,
  cancel, from_completion, with_state, history_status, duration_ms,
}
use harborsql.Thrift.Service.{
  Config, Service, operation_grants, session_for, touch_session, cleanup_expired, refresh_operation,
}

abbrev pub or_default : Option Bytes → Bytes → Bytes
or_default none d = d
or_default (some v) d = v

-- The instants at which one request reads the clock, and the ids that it generates.
pub record Context : Type 0 where
  pub refresh : ℕ
  pub cleanup : ℕ
  pub access : ℕ
  pub new_id : Bytes
  pub new_secret : Bytes

module _ (c : Config) (x : Context) (fingerprint : Bytes) where
  unfoldable pub new_session : OpenSessionReq → SessionState
  new_session request = record {
    id = x.new_id;
    secret = x.new_secret;
    token_fingerprint = fingerprint;
    catalog = or_default request.catalog c.default_catalog;
    schema = or_default request.schema c.default_schema;
    last_access = x.access;
  }

module _ {R : Type 0} (c : Config) (x : Context) (fingerprint : Bytes) where
  unfoldable pub insert_session : OpenSessionReq → Service R → Option SessionState × Service R
  unfolding new_session
  insert_session request s = if leb c.max_sessions (length s.sessions) then (none, s) else (
    some (new_session c x fingerprint request),
    record s { sessions = insert x.new_id (new_session c x fingerprint request) s.sessions },
  )

  -- `none` is the answer "maximum session count exceeded".
  unfoldable pub open_session : OpenSessionReq → Service R → Option SessionState × Service R
  unfolding insert_session
  open_session request s = insert_session request (cleanup_expired c x.refresh x.cleanup s)

module _ {R : Type 0} where
  abbrev pub abort_log : Bytes → Option (OperationState R) → Service R → Service R
  abort_log id none s = s
  abort_log id (some o) s = if abort o then record s { log = id ∷ s.log } else s

  -- `remove_unreturned_operation`, and the removal in `remove_operation`.
  unfoldable pub take_operation : Bytes → Service R → Service R
  take_operation id s =
      abort_log id (get id s.operations) (record s { operations = remove id s.operations })

  abbrev pub operation_valid : Bytes → Option (OperationState R) → Handle → Bool
  operation_valid fingerprint none h = false
  operation_valid fingerprint (some o) h = operation_grants o h fingerprint

pub data Started : Type 0 where
  started invalid_session too_many_operations : Started

module _ {R : Type 0} (c : Config) (x : Context) (fingerprint : Bytes) where
  unfoldable pub new_operation : SessionState → OperationState R
  new_operation session = record {
    secret = x.new_secret;
    session_id = session.id;
    token_fingerprint = fingerprint;
    state = running x.access none;
  }

  unfoldable pub insert_operation : Option SessionState → Service R → Started × Service R
  unfolding new_operation
  insert_operation none s = (invalid_session, s)
  insert_operation (some session) s =
      if leb c.max_operations (length s.operations)
      then (too_many_operations, s)
      else (started, record s { operations = insert x.new_id (new_operation session) s.operations })

  -- `ExecuteStatement`, and `GetColumns` up to where it waits for its task.
  unfoldable pub start_operation : Option Handle → Service R → Started × Service R
  unfolding insert_operation
  start_operation handle s =
      let (session, s') =
        session_for c x.access handle fingerprint (cleanup_expired c x.refresh x.cleanup s) in
      insert_operation session s'

  unfoldable pub operation_found :
      {A : Type 0}
      → (OperationState R → A)
      → Handle
      → Option (OperationState R)
      → Service R
      → Option A × Service R
  operation_found write h none s = (none, s)
  operation_found write h (some o) s =
      if operation_grants o h fingerprint
      then (some (write o), touch_session o.session_id x.access s)
      else (none, s)

  -- `with_operation`: the answers of `GetOperationStatus`, `GetQueryId`, `GetResultSetMetadata` and
  -- `FetchResults`.
  unfoldable pub with_operation :
      {A : Type 0} → (OperationState R → A) → Option Handle → Service R → Option A × Service R
  unfolding operation_found
  with_operation write none s = (none, s)
  with_operation write (some h) s =
      let s' = refresh_operation h.id x.refresh (cleanup_expired c x.refresh x.cleanup s) in
      operation_found write h (get h.id s'.operations) s'

  unfoldable pub close_found : Handle → Service R → Bool × Service R
  unfolding take_operation
  close_found h s =
      if operation_valid fingerprint (get h.id s.operations) h
      then (true, take_operation h.id s)
      else (false, s)

  -- `CloseOperation`
  unfoldable pub remove_operation : Option Handle → Service R → Bool × Service R
  unfolding close_found
  remove_operation none s = (false, s)
  remove_operation (some h) s = close_found h (cleanup_expired c x.refresh x.cleanup s)

  unfoldable pub cancel_found : Handle → Service R → Bool × Service R
  cancel_found h s =
      if operation_valid fingerprint (get h.id s.operations) h
      then (
        true,
        abort_log h.id (get h.id s.operations)
            (record s { operations = update h.id (cancel x.access) s.operations }),
      )
      else (false, s)

  -- `CancelOperation`
  unfoldable pub cancel_operation : Option Handle → Service R → Bool × Service R
  unfolding cancel_found
  cancel_operation none s = (false, s)
  cancel_operation (some h) s = cancel_found h (cleanup_expired c x.refresh x.cleanup s)

  -- The state and the duration that the history endpoint reports.
  unfoldable pub history_found :
      Bytes → Option (OperationState R) → Service R → Option (Bytes × ℕ) × Service R
  history_found id none s = (none, s)
  history_found id (some o) s =
      if bytes_eq o.token_fingerprint fingerprint
      then (
        some (history_status o.state, duration_ms x.access o.state),
        touch_session o.session_id x.access s,
      )
      else (none, s)

  unfoldable pub query_history : Bytes → Service R → Option (Bytes × ℕ) × Service R
  unfolding history_found
  query_history id s =
      let s' = refresh_operation id x.refresh (cleanup_expired c x.refresh x.cleanup s) in
      history_found id (get id s'.operations) s'

module _ {R : Type 0} where
  -- The runtime: a task has its outcome from now on.
  unfoldable pub finish_task : Joined R → OperationExecution R → OperationExecution R
  finish_task joined (running start none) = running start (some joined)
  finish_task joined state = state

  unfoldable pub task_finished : Bytes → Joined R → Service R → Service R
  unfolding finish_task
  task_finished id joined s = record s {
    operations = update id (λ o. with_state o (finish_task joined o.state)) s.operations;
  }

  -- The end of the task of `GetColumns`: it writes the state itself. `delivered` says whether the
  -- handler still waits for the outcome.
  unfoldable pub metadata_completed :
      Bytes → ℕ → OperationCompletion R → Bool → Service R → Service R
  metadata_completed id now completion delivered s =
      let written = update id (λ o. with_state o (from_completion now completion)) s.operations in
      record s { operations = if delivered then written else remove id written }
