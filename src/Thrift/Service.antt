-- ===== src/Thrift/Service.antt =====
-- The service's sessions and operations: `DatabricksThriftService` of src/thrift.rs. A method that
-- takes the service's locks is a function of the service; what it does under one lock is one atomic
-- step, and the steps of one method follow each other. `log` holds the ids of the operations whose
-- tasks were aborted. A `fingerprint` is `token_fingerprint(bearer_token)`.
pub mod Handlers
pub mod Wf
pub mod Events
pub mod Access
pub mod Closing
pub mod Expiring
pub mod Refresh
pub mod Examples
use harborsql.Base.{
  ℕ, Bool, true, false, not, ◌&&◌, ◌||◌, Option, none, some, List, [], ◌∷◌, ◌++◌, Bytes, bytes_eq,
  leb, length, if◌then◌else◌,
}
use harborsql.Base.Dict.{Dict, get, insert, update, retain, remove}
use harborsql.Thrift.Requests.{Handle}
use harborsql.Thrift.State.{
  SessionState, session_is_expired, OperationState, OperationExecution, Joined, Task,
  has_finished_task, take_finished_task, finish_refresh, abort, cancel, is_expired, history_status,
  duration_ms,
}

pub record Config : Type 0 where
  pub max_sessions : ℕ
  pub max_operations : ℕ
  pub idle_session_timeout : ℕ
  pub completed_operation_ttl : ℕ
  pub default_catalog : Bytes
  pub default_schema : Bytes

pub record Service (R : Type 0) : Type 0 where
  pub sessions : Dict SessionState
  pub operations : Dict (OperationState R)
  pub log : List Bytes

-- The secret and the token of a request against those of a session or an operation.
abbrev pub grants : Bytes → Bytes → Bytes → Bytes → Bool
grants secret fingerprint given_secret given_fingerprint =
    bytes_eq secret given_secret && bytes_eq fingerprint given_fingerprint

unfoldable pub session_grants : SessionState → Handle → Bytes → Bool
session_grants s h fingerprint = grants s.secret s.token_fingerprint h.secret fingerprint

abbrev pub accessed : ℕ → SessionState → SessionState
accessed now s = record s { last_access = now }

abbrev pub session_valid : Option SessionState → Handle → Bytes → Bool
session_valid none h fingerprint = false
session_valid (some session) h fingerprint = session_grants session h fingerprint

unfoldable pub session_is_live : Config → ℕ → Bytes → SessionState → Bool
session_is_live c now id session = not (session_is_expired session now c.idle_session_timeout)

-- The set of the ids of the sessions that expired, as its test.
unfoldable pub expired_session : Config → ℕ → Dict SessionState → Bytes → Bool
expired_session c now sessions id = elim (get id sessions) [
  | none ↦ false
  | some session ↦ session_is_expired session now c.idle_session_timeout
]

module _ {R : Type 0} where
  unfoldable pub operation_grants : OperationState R → Handle → Bytes → Bool
  operation_grants o h fingerprint = grants o.secret o.token_fingerprint h.secret fingerprint

  -- `operations.retain(…)` with a call of `abort` on what is not kept.
  unfoldable pub aborted : (Bytes → OperationState R → Bool) → Dict (OperationState R) → List Bytes
  aborted keep [] = []
  aborted keep ((id, o) ∷ m) =
      let rest = aborted keep m in if not (keep id o) && abort o then id ∷ rest else rest

  unfoldable pub retain_operations : (Bytes → OperationState R → Bool) → Service R → Service R
  retain_operations keep s = record s {
    operations = retain keep s.operations;
    log = aborted keep s.operations ++ s.log;
  }

  unfoldable pub remove_operations_for_session : Bytes → Service R → Service R
  remove_operations_for_session session_id =
      retain_operations (λ id o. not (bytes_eq o.session_id session_id))

  unfoldable pub remove_session_entry : Bytes → Service R → Service R
  remove_session_entry id s = record s { sessions = remove id s.sessions }

  unfoldable pub touch_session : Bytes → ℕ → Service R → Service R
  touch_session id now s = record s { sessions = update id (accessed now) s.sessions }

  -- By the entry of the session's id in the table.
  unfoldable pub session_found :
      Config
      → ℕ
      → Handle
      → Bytes
      → Option SessionState
      → Service R
      → Option SessionState × Service R
  session_found c now h fingerprint none s = (none, s)
  session_found c now h fingerprint (some session) s =
      if session_is_expired session now c.idle_session_timeout
      then (none, remove_operations_for_session h.id (remove_session_entry h.id s))
      else if session_grants session h fingerprint
      then (some (accessed now session), touch_session h.id now s)
      else (none, s)

  unfoldable pub session_for :
      Config → ℕ → Option Handle → Bytes → Service R → Option SessionState × Service R
  unfolding session_found
  session_for c now none fingerprint s = (none, s)
  session_for c now (some h) fingerprint s =
      session_found c now h fingerprint (get h.id s.sessions) s

  unfoldable pub remove_session : Option Handle → Bytes → Service R → Bool × Service R
  remove_session none fingerprint s = (false, s)
  remove_session (some h) fingerprint s =
      if session_valid (get h.id s.sessions) h fingerprint
      then (true, remove_operations_for_session h.id (remove_session_entry h.id s))
      else (false, s)

  -- `operations.get_mut(id).and_then(OperationState::take_finished_task)`
  abbrev pub taken_task : Option (OperationState R) → Option (ℕ × Task R)
  taken_task none = none
  taken_task (some o) = (take_finished_task o).1

  -- `task.await` on a finished task gives its outcome.
  abbrev pub awaited : ℕ → ℕ → Task R → OperationState R → OperationState R
  awaited now started none o = o
  awaited now started (some joined) o = finish_refresh now o started joined

  abbrev put_refreshed : Bytes → ℕ → Option (ℕ × Task R) → Service R → Service R
  put_refreshed id now none s = s
  put_refreshed id now (some (started, task)) s = record s {
    operations = update id (awaited now started task) s.operations;
  }

  unfoldable pub refresh_operation : Bytes → ℕ → Service R → Service R
  refresh_operation id now s =
      put_refreshed id now (taken_task (get id s.operations))
        (record s { operations = update id (λ o. (take_finished_task o).0) s.operations })

  -- The ids that `refresh_finished_operations` collects under the read lock.
  unfoldable pub finished_ids : Dict (OperationState R) → List Bytes
  finished_ids [] = []
  finished_ids ((id, o) ∷ m) =
      let rest = finished_ids m in if has_finished_task o then id ∷ rest else rest

  unfoldable pub refresh_all : List Bytes → ℕ → Service R → Service R
  refresh_all [] now s = s
  refresh_all (id ∷ ids) now s = refresh_all ids now (refresh_operation id now s)

  unfoldable pub refresh_finished_operations : ℕ → Service R → Service R
  refresh_finished_operations now s = refresh_all (finished_ids s.operations) now s

  unfoldable pub operation_is_live :
      Config → ℕ → Dict SessionState → Bytes → OperationState R → Bool
  unfolding expired_session
  operation_is_live c now sessions id o =
      not
        (expired_session c now sessions o.session_id || is_expired o now c.completed_operation_ttl)

  -- What `cleanup_expired` does after it has refreshed the finished operations.
  unfoldable pub remove_expired : Config → ℕ → Service R → Service R
  unfolding session_is_live operation_is_live
  remove_expired c now s =
      retain_operations (operation_is_live c now s.sessions)
        (record s { sessions = retain (session_is_live c now) s.sessions })

  -- The instants at which the refresh and the clean-up read the clock.
  unfoldable pub cleanup_expired : Config → ℕ → ℕ → Service R → Service R
  cleanup_expired c refresh now s = remove_expired c now (refresh_finished_operations refresh s)
