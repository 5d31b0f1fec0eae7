-- ===== src/Thrift/Service/Wf.antt =====
-- Well-formed tables of the service, and the methods of src/thrift.rs that requests share.
pub mod Handlers
use harborsql.Base.{
  ℕ, ◌≤◌, Bool, true, false, Option, none, some, List, [], ◌∷◌, Bytes, length, leb, arith,
  Bool-cases, inl, inr, if◌then◌else◌,
}
use harborsql.Base.Dict.{
  get, update, retain, remove, Distinct, Distinct-retain, Distinct-insert, Distinct-update,
  length-retain, length-update, length-insert,
}
use harborsql.Thrift.Requests.{Handle, OpenSessionReq}
use harborsql.Thrift.State.{
  SessionState, OperationState, OperationCompletion, Joined, Task, abort, session_is_expired,
}
use harborsql.Thrift.Service.{
  Config, Service, retain_operations, remove_operations_for_session, remove_session_entry,
  touch_session, accessed, session_for, session_found, session_grants, remove_session,
  put_refreshed, refresh_operation, refresh_all, refresh_finished_operations, remove_expired,
  cleanup_expired, finished_ids,
}
use harborsql.Thrift.Service.Handlers.{
  Context, new_session, new_operation, open_session, insert_session, start_operation,
  insert_operation, with_operation, operation_found, take_operation, abort_log, remove_operation,
  close_found, cancel_operation, cancel_found, query_history, history_found, task_finished,
  metadata_completed,
}

pub record IsWf {R : Type 0} (c : Config) (s : Service R) : Type 0 where
  pub one_session : Distinct s.sessions
  pub one_operation : Distinct s.operations
  pub sessions_fit : length s.sessions ≤ c.max_sessions
  pub operations_fit : length s.operations ≤ c.max_operations

module _ {R : Type 0} (c : Config) where
  pub IsWf-update_operations :
      (id : Bytes) (f : OperationState R → OperationState R) {s : Service R}
      → IsWf c s
      → IsWf c (record s { operations = update id f s.operations })
  IsWf-update_operations id f {s} h = record {
    one_session = h.one_session;
    one_operation = Distinct-update id f s.operations h.one_operation;
    sessions_fit = h.sessions_fit;
    operations_fit = omega (arith, h.operations_fit, length-update id f s.operations);
  }

  IsWf-retain_operations :
      (keep : Bytes → OperationState R → Bool) {s : Service R}
      → IsWf c s
      → IsWf c (retain_operations keep s)
  unfolding retain_operations
  IsWf-retain_operations keep {s} h = record {
    one_session = h.one_session;
    one_operation = Distinct-retain keep s.operations h.one_operation;
    sessions_fit = h.sessions_fit;
    operations_fit = omega (arith, h.operations_fit, length-retain keep s.operations);
  }

  pub IsWf-remove_operation_entry :
      (id : Bytes) {s : Service R}
      → IsWf c s
      → IsWf c (record s { operations = remove id s.operations })
  unfolding remove
  IsWf-remove_operation_entry id {s} h = record {
    one_session = h.one_session;
    one_operation = Distinct-retain _ s.operations h.one_operation;
    sessions_fit = h.sessions_fit;
    operations_fit = omega (arith, h.operations_fit, length-retain _ s.operations);
  }

  IsWf-retain_sessions :
      (keep : Bytes → SessionState → Bool) {s : Service R}
      → IsWf c s
      → IsWf c (record s { sessions = retain keep s.sessions })
  IsWf-retain_sessions keep {s} h = record {
    one_session = Distinct-retain keep s.sessions h.one_session;
    one_operation = h.one_operation;
    sessions_fit = omega (arith, h.sessions_fit, length-retain keep s.sessions);
    operations_fit = h.operations_fit;
  }

  pub IsWf-touch :
      (id : Bytes) (now : ℕ) {s : Service R} → IsWf c s → IsWf c (touch_session id now s)
  unfolding touch_session
  IsWf-touch id now {s} h = record {
    one_session = Distinct-update id _ s.sessions h.one_session;
    one_operation = h.one_operation;
    sessions_fit = omega (arith, h.sessions_fit, length-update id (accessed now) s.sessions);
    operations_fit = h.operations_fit;
  }

  IsWf-drop_session :
      (id : Bytes) {s : Service R}
      → IsWf c s
      → IsWf c (remove_operations_for_session id (remove_session_entry id s))
  unfolding remove_operations_for_session remove_session_entry remove
  IsWf-drop_session id h = IsWf-retain_operations _ (IsWf-retain_sessions _ h)

  pub IsWf-if :
      (b : Bool) {A : Type 0} (p q : A × Service R)
      → IsWf c p.1
      → IsWf c q.1
      → IsWf c (if b then p else q).1
  IsWf-if true p q h h' = h
  IsWf-if false p q h h' = h'

  IsWf-session_found :
      (now : ℕ) (k : Handle) (fp : Bytes) (o : Option SessionState) (s : Service R)
      → IsWf c s
      → IsWf c (session_found c now k fp o s).1
  unfolding session_found
  IsWf-session_found now k fp none s h = h
  IsWf-session_found now k fp (some session) s h =
      elim (Bool-cases (session_is_expired session now c.idle_session_timeout)) [
        | inl e ↦ rw e (IsWf-drop_session k.id h)
        | inr e ↦ elim (Bool-cases (session_grants session k fp)) [
          | inl e' ↦ rw (e, e') (IsWf-touch k.id now h)
          | inr e' ↦ rw (e, e') h
        ]
      ]

  pub IsWf-session_for :
      (now : ℕ) (handle : Option Handle) (fp : Bytes) (s : Service R)
      → IsWf c s
      → IsWf c (session_for c now handle fp s).1
  unfolding session_for
  IsWf-session_for now none fp s h = h
  IsWf-session_for now (some k) fp s h = IsWf-session_found now k fp (get k.id s.sessions) s h

  pub IsWf-remove_session :
      (handle : Option Handle) (fp : Bytes) (s : Service R)
      → IsWf c s
      → IsWf c (remove_session handle fp s).1
  unfolding remove_session
  IsWf-remove_session none fp s h = h
  IsWf-remove_session (some k) fp s h = IsWf-if _ _ _ (IsWf-drop_session k.id h) h

  IsWf-put_refreshed :
      (id : Bytes) (now : ℕ) (o : Option (ℕ × Task R)) (s : Service R)
      → IsWf c s
      → IsWf c (put_refreshed id now o s)
  IsWf-put_refreshed id now none s h = h
  IsWf-put_refreshed id now (some (started, task)) s h = IsWf-update_operations id _ h

  pub IsWf-refresh_operation :
      (id : Bytes) (now : ℕ) (s : Service R) → IsWf c s → IsWf c (refresh_operation id now s)
  unfolding refresh_operation
  IsWf-refresh_operation id now s h = IsWf-put_refreshed id now _ _ (IsWf-update_operations id _ h)

  pub IsWf-refresh_all :
      (ids : List Bytes) (now : ℕ) (s : Service R) → IsWf c s → IsWf c (refresh_all ids now s)
  unfolding refresh_all
  IsWf-refresh_all [] now s h = h
  IsWf-refresh_all (id ∷ ids) now s h =
      IsWf-refresh_all ids now (refresh_operation id now s) (IsWf-refresh_operation id now s h)

  pub IsWf-cleanup_expired :
      (refresh now : ℕ) (s : Service R) → IsWf c s → IsWf c (cleanup_expired c refresh now s)
  unfolding cleanup_expired remove_expired refresh_finished_operations
  IsWf-cleanup_expired refresh now s h =
      IsWf-retain_operations _
        (IsWf-retain_sessions _ (IsWf-refresh_all (finished_ids s.operations) refresh s h))

  pub IsWf-abort_log :
      (id : Bytes) (o : Option (OperationState R)) (s : Service R)
      → IsWf c s
      → IsWf c (abort_log id o s)
  IsWf-abort_log id none s h = h
  IsWf-abort_log id (some o) s h = elim (Bool-cases (abort o)) [
    | inl e ↦ rw e (record {
      one_session = h.one_session;
      one_operation = h.one_operation;
      sessions_fit = h.sessions_fit;
      operations_fit = h.operations_fit;
    })
    | inr e ↦ rw e h
  ]

  pub IsWf-take_operation : (id : Bytes) (s : Service R) → IsWf c s → IsWf c (take_operation id s)
  unfolding take_operation
  IsWf-take_operation id s h = IsWf-abort_log id _ _ (IsWf-remove_operation_entry id h)
