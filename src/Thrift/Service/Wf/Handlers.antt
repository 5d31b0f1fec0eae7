-- ===== src/Thrift/Service/Wf/Handlers.antt =====
-- Well-formed tables and the methods of `handle_decoded` in src/thrift.rs.
use harborsql.Base.{
  ℕ, Bool, true, false, Option, none, some, Bytes, length, leb, arith, Bool-cases, inl, inr,
}
use harborsql.Base.Dict.{Distinct-insert, length-insert}
use harborsql.Thrift.Requests.{Handle, OpenSessionReq}
use harborsql.Thrift.State.{SessionState, OperationState, OperationCompletion, Joined}
use harborsql.Thrift.Service.{Config, Service}
use harborsql.Thrift.Service.Handlers.{
  Context, new_session, new_operation, open_session, insert_session, start_operation,
  insert_operation, with_operation, operation_found, remove_operation, close_found,
  cancel_operation, cancel_found, query_history, history_found, task_finished, metadata_completed,
}
use harborsql.Thrift.Service.Wf.{
  IsWf, IsWf-abort_log, IsWf-cleanup_expired, IsWf-if, IsWf-refresh_operation,
  IsWf-remove_operation_entry, IsWf-session_for, IsWf-take_operation, IsWf-touch,
  IsWf-update_operations,
}

module _ {R : Type 0} (c : Config) (x : Context) (fp : Bytes) where
  IsWf-insert_session :
      (request : OpenSessionReq) (s : Service R)
      → IsWf c s
      → IsWf c (insert_session c x fp request s).1
  unfolding insert_session
  IsWf-insert_session request s h = elim (Bool-cases (leb c.max_sessions (length s.sessions))) [
    | inl e ↦ rw e h
    | inr e ↦ rw e (record {
      one_session = Distinct-insert _ _ s.sessions h.one_session;
      one_operation = h.one_operation;
      sessions_fit = ground (arith, length-insert x.new_id (new_session c x fp request) s.sessions);
      operations_fit = h.operations_fit;
    })
  ]

  pub IsWf-open_session :
      (request : OpenSessionReq) (s : Service R)
      → IsWf c s
      → IsWf c (open_session c x fp request s).1
  unfolding open_session
  IsWf-open_session request s h =
      IsWf-insert_session request _ (IsWf-cleanup_expired c x.refresh x.cleanup s h)

  IsWf-insert_operation :
      (session : Option SessionState) (s : Service R)
      → IsWf c s
      → IsWf c (insert_operation c x fp session s).1
  unfolding insert_operation
  IsWf-insert_operation none s h = h
  IsWf-insert_operation (some session) s h =
      elim (Bool-cases (leb c.max_operations (length s.operations))) [
        | inl e ↦ rw e h
        | inr e ↦ rw e (record {
          one_session = h.one_session;
          one_operation = Distinct-insert _ _ s.operations h.one_operation;
          sessions_fit = h.sessions_fit;
          operations_fit =
              ground (arith, length-insert x.new_id (new_operation c x fp session) s.operations);
        })
      ]

  pub IsWf-start_operation :
      (handle : Option Handle) (s : Service R)
      → IsWf c s
      → IsWf c (start_operation c x fp handle s).1
  unfolding start_operation
  IsWf-start_operation handle s h =
      let cleaned = IsWf-cleanup_expired c x.refresh x.cleanup s h in
      IsWf-insert_operation _ _ (IsWf-session_for c x.access handle fp _ cleaned)

  IsWf-operation_found :
      {A : Type 0} (write : OperationState R → A) (k : Handle) (o : Option (OperationState R))
      (s : Service R)
      → IsWf c s
      → IsWf c (operation_found c x fp write k o s).1
  unfolding operation_found
  IsWf-operation_found write k none s h = h
  IsWf-operation_found write k (some o) s h =
      IsWf-if c _ _ _ (IsWf-touch c o.session_id x.access h) h

  pub IsWf-with_operation :
      {A : Type 0} (write : OperationState R → A) (handle : Option Handle) (s : Service R)
      → IsWf c s
      → IsWf c (with_operation c x fp write handle s).1
  unfolding with_operation
  IsWf-with_operation write none s h = h
  IsWf-with_operation write (some k) s h =
      let cleaned = IsWf-cleanup_expired c x.refresh x.cleanup s h in
      IsWf-operation_found write k _ _ (IsWf-refresh_operation c k.id x.refresh _ cleaned)

  pub IsWf-remove_operation :
      (handle : Option Handle) (s : Service R)
      → IsWf c s
      → IsWf c (remove_operation c x fp handle s).1
  unfolding remove_operation close_found
  IsWf-remove_operation none s h = h
  IsWf-remove_operation (some k) s h =
      let cleaned = IsWf-cleanup_expired c x.refresh x.cleanup s h in
      IsWf-if c _ _ _ (IsWf-take_operation c k.id _ cleaned) cleaned

  pub IsWf-cancel_operation :
      (handle : Option Handle) (s : Service R)
      → IsWf c s
      → IsWf c (cancel_operation c x fp handle s).1
  unfolding cancel_operation cancel_found
  IsWf-cancel_operation none s h = h
  IsWf-cancel_operation (some k) s h =
      let cleaned = IsWf-cleanup_expired c x.refresh x.cleanup s h in
      IsWf-if c _ _ _ (IsWf-abort_log c k.id _ _ (IsWf-update_operations c k.id _ cleaned)) cleaned

  IsWf-history_found :
      (id : Bytes) (o : Option (OperationState R)) (s : Service R)
      → IsWf c s
      → IsWf c (history_found c x fp id o s).1
  unfolding history_found
  IsWf-history_found id none s h = h
  IsWf-history_found id (some o) s h = IsWf-if c _ _ _ (IsWf-touch c o.session_id x.access h) h

  pub IsWf-query_history :
      (id : Bytes) (s : Service R) → IsWf c s → IsWf c (query_history c x fp id s).1
  unfolding query_history
  IsWf-query_history id s h =
      let cleaned = IsWf-cleanup_expired c x.refresh x.cleanup s h in
      IsWf-history_found id _ _ (IsWf-refresh_operation c id x.refresh _ cleaned)

module _ {R : Type 0} (c : Config) where
  pub IsWf-task_finished :
      (id : Bytes) (joined : Joined R) (s : Service R)
      → IsWf c s
      → IsWf c (task_finished id joined s)
  unfolding task_finished
  IsWf-task_finished id joined s h = IsWf-update_operations c id _ h

  pub IsWf-metadata_completed :
      (id : Bytes) (now : ℕ) (completion : OperationCompletion R) (delivered : Bool) (s : Service R)
      → IsWf c s
      → IsWf c (metadata_completed id now completion delivered s)
  unfolding metadata_completed
  IsWf-metadata_completed id now completion true s h = IsWf-update_operations c id _ h
  IsWf-metadata_completed id now completion false s h =
      IsWf-remove_operation_entry c id (IsWf-update_operations c id _ h)
