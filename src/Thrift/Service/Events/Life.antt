-- ===== src/Thrift/Service/Events/Life.antt =====
-- The life of an operation over all events: src/thrift.rs.
use harborsql.Base.{
  ℕ, ◌≡◌, Bool, true, false, Option, none, some, List, [], ◌∷◌, Bytes, bytes_eq, leb, length,
  Bool-cases, inl, inr, if◌then◌else◌,
}
use harborsql.Base.Dict.{Dict, get, update, remove, get-insert, get-update, get-remove, Distinct}
use harborsql.Thrift.Requests.{Handle, OpenSessionReq}
use harborsql.Thrift.State.{SessionState, session_is_expired, OperationState, cancel}
use harborsql.Thrift.Service.{
  Config, Service, remove_operations_for_session, remove_session_entry, retain_operations,
  touch_session, session_for, session_found, session_grants, session_valid, remove_session,
  refresh_finished_operations, remove_expired, cleanup_expired, finished_ids, operation_grants,
}
use harborsql.Thrift.Service.Handlers.{
  Context, open_session, insert_session, start_operation, insert_operation, new_operation,
  with_operation, operation_found, remove_operation, close_found, operation_valid, cancel_operation,
  cancel_found, query_history, history_found, task_finished, metadata_completed,
}
use harborsql.Thrift.Service.Wf.{IsWf, IsWf-cleanup_expired, IsWf-refresh_all}
use harborsql.Thrift.Service.Events.{
  Event, step, serve, IsWf-step, opens, closes_session, gets_info, starts, reads, closes, cancels,
  asks_history, cleans, ends, ends_metadata, abandons,
}
use harborsql.Thrift.Service.Events.Lasting.{
  Later, LaterOf, Later-same, Later-trans, Later-update, Later-retain, Later-refresh_operation,
  Later-refresh_all, Later-take_operation, Later-abort_log, Kept-cancel, finished_done, Kept-state,
}

module _ {R : Type 0} (c : Config) (id : Bytes) where
  -- The event neither starts an operation under `id` nor is the end of the metadata task of `id`.
  abbrev pub LeavesAlone : Event R → Type 0
  LeavesAlone (starts x fp handle) = bytes_eq x.new_id id ≡ false
  LeavesAlone (ends_metadata k now completion delivered) = bytes_eq k id ≡ false
  LeavesAlone _ = Unit

  abbrev pub AllLeaveAlone : List (Event R) → Type 0
  AllLeaveAlone [] = Unit
  AllLeaveAlone (e ∷ es) = LeavesAlone e × AllLeaveAlone es

  Later-cleanup_expired :
      (refresh now : ℕ) (s : Service R) → IsWf c s → LaterOf id s (cleanup_expired c refresh now s)
  unfolding cleanup_expired remove_expired refresh_finished_operations retain_operations
  Later-cleanup_expired refresh now s h =
      let ids = finished_ids s.operations in
      Later-trans _ _ _ (Later-refresh_all id ids refresh s)
        (Later-retain _ id _ (IsWf-refresh_all c ids refresh s h).one_operation)

  Later-drop_session :
      (k : Bytes) (s : Service R)
      → Distinct s.operations
      → LaterOf id s (remove_operations_for_session k (remove_session_entry k s))
  unfolding remove_operations_for_session remove_session_entry retain_operations
  Later-drop_session k s d = Later-retain _ id s.operations d

  Later-session_found :
      (now : ℕ) (k : Handle) (fp : Bytes) (o : Option SessionState) (s : Service R)
      → Distinct s.operations
      → LaterOf id s (session_found c now k fp o s).1
  unfolding session_found touch_session
  Later-session_found now k fp none s d = Later-same (get id s.operations)
  Later-session_found now k fp (some session) s d =
      elim (Bool-cases (session_is_expired session now c.idle_session_timeout)) [
        | inl e ↦ rw e (Later-drop_session k.id s d)
        | inr e ↦ elim (Bool-cases (session_grants session k fp)) [
          | inl e' ↦ rw (e, e') (Later-same (get id s.operations))
          | inr e' ↦ rw (e, e') (Later-same (get id s.operations))
        ]
      ]

  Later-session_for :
      (now : ℕ) (handle : Option Handle) (fp : Bytes) (s : Service R)
      → Distinct s.operations
      → LaterOf id s (session_for c now handle fp s).1
  unfolding session_for
  Later-session_for now none fp s d = Later-same (get id s.operations)
  Later-session_for now (some k) fp s d = Later-session_found now k fp (get k.id s.sessions) s d

  Later-remove_session :
      (handle : Option Handle) (fp : Bytes) (s : Service R)
      → Distinct s.operations
      → LaterOf id s (remove_session handle fp s).1
  unfolding remove_session
  Later-remove_session none fp s d = Later-same (get id s.operations)
  Later-remove_session (some k) fp s d =
      elim (Bool-cases (session_valid (get k.id s.sessions) k fp)) [
        | inl e ↦ rw e (Later-drop_session k.id s d)
        | inr e ↦ rw e (Later-same (get id s.operations))
      ]

  Later-open_session :
      (x : Context) (fp : Bytes) (request : OpenSessionReq) (s : Service R)
      → IsWf c s
      → LaterOf id s (open_session c x fp request s).1
  unfolding open_session insert_session
  Later-open_session x fp request s h =
      let s' = cleanup_expired c x.refresh x.cleanup s in
      elim (Bool-cases (leb c.max_sessions (length s'.sessions))) [
        | inl e ↦ rw e (Later-cleanup_expired x.refresh x.cleanup s h)
        | inr e ↦ rw e (Later-cleanup_expired x.refresh x.cleanup s h)
      ]

  Later-insert_operation :
      (x : Context) (fp : Bytes) (session : Option SessionState) (s : Service R)
      → bytes_eq x.new_id id ≡ false
      → LaterOf id s (insert_operation c x fp session s).1
  unfolding insert_operation
  Later-insert_operation x fp none s fresh = Later-same (get id s.operations)
  Later-insert_operation x fp (some session) s fresh =
      elim (Bool-cases (leb c.max_operations (length s.operations))) [
        | inl e ↦ rw e (Later-same (get id s.operations))
        | inr e ↦
            rw (e, get-insert x.new_id id (new_operation c x fp session) s.operations, fresh)
              (Later-same (get id s.operations))
      ]

  Later-start_operation :
      (x : Context) (fp : Bytes) (handle : Option Handle) (s : Service R)
      → bytes_eq x.new_id id ≡ false
      → IsWf c s
      → LaterOf id s (start_operation c x fp handle s).1
  unfolding start_operation
  Later-start_operation x fp handle s fresh h =
      let cleaned = IsWf-cleanup_expired c x.refresh x.cleanup s h in
      Later-trans _ _ _ (Later-cleanup_expired x.refresh x.cleanup s h) (
        Later-trans _ _ _ (Later-session_for x.access handle fp _ cleaned.one_operation)
          (Later-insert_operation x fp _ _ fresh))

  Later-operation_found :
      {A : Type 0} (x : Context) (fp : Bytes) (write : OperationState R → A) (k : Handle)
      (o : Option (OperationState R)) (s : Service R)
      → LaterOf id s (operation_found c x fp write k o s).1
  unfolding operation_found touch_session
  Later-operation_found x fp write k none s = Later-same (get id s.operations)
  Later-operation_found x fp write k (some o) s = elim (Bool-cases (operation_grants o k fp)) [
    | inl e ↦ rw e (Later-same (get id s.operations))
    | inr e ↦ rw e (Later-same (get id s.operations))
  ]

  Later-with_operation :
      {A : Type 0} (x : Context) (fp : Bytes) (write : OperationState R → A)
      (handle : Option Handle) (s : Service R)
      → IsWf c s
      → LaterOf id s (with_operation c x fp write handle s).1
  unfolding with_operation
  Later-with_operation x fp write none s h = Later-same (get id s.operations)
  Later-with_operation x fp write (some k) s h =
      Later-trans _ _ _ (Later-cleanup_expired x.refresh x.cleanup s h) (
        Later-trans _ _ _ (Later-refresh_operation id k.id x.refresh _)
          (Later-operation_found x fp write k _ _))

  Later-remove_operation :
      (x : Context) (fp : Bytes) (handle : Option Handle) (s : Service R)
      → IsWf c s
      → LaterOf id s (remove_operation c x fp handle s).1
  unfolding remove_operation close_found
  Later-remove_operation x fp none s h = Later-same (get id s.operations)
  Later-remove_operation x fp (some k) s h =
      let s' = cleanup_expired c x.refresh x.cleanup s in
      let cleaned = Later-cleanup_expired x.refresh x.cleanup s h in
      elim (Bool-cases (operation_valid fp (get k.id s'.operations) k)) [
        | inl e ↦ rw e (Later-trans _ _ _ cleaned (Later-take_operation id k.id s'))
        | inr e ↦ rw e cleaned
      ]

  Later-cancel_operation :
      (x : Context) (fp : Bytes) (handle : Option Handle) (s : Service R)
      → IsWf c s
      → LaterOf id s (cancel_operation c x fp handle s).1
  unfolding cancel_operation cancel_found
  Later-cancel_operation x fp none s h = Later-same (get id s.operations)
  Later-cancel_operation x fp (some k) s h =
      let s' = cleanup_expired c x.refresh x.cleanup s in
      let cleaned = Later-cleanup_expired x.refresh x.cleanup s h in
      elim (Bool-cases (operation_valid fp (get k.id s'.operations) k)) [
        | inl e ↦ rw e (
            Later-trans _ _ _ cleaned (
              Later-trans _ _ _
                (Later-update k.id id (cancel x.access) s'.operations (Kept-cancel x.access))
                (Later-abort_log id k.id _ _)))
        | inr e ↦ rw e cleaned
      ]

  Later-history_found :
      (x : Context) (fp k : Bytes) (o : Option (OperationState R)) (s : Service R)
      → LaterOf id s (history_found c x fp k o s).1
  unfolding history_found touch_session
  Later-history_found x fp k none s = Later-same (get id s.operations)
  Later-history_found x fp k (some o) s = elim (Bool-cases (bytes_eq o.token_fingerprint fp)) [
    | inl e ↦ rw e (Later-same (get id s.operations))
    | inr e ↦ rw e (Later-same (get id s.operations))
  ]

  Later-query_history :
      (x : Context) (fp k : Bytes) (s : Service R)
      → IsWf c s
      → LaterOf id s (query_history c x fp k s).1
  unfolding query_history
  Later-query_history x fp k s h =
      Later-trans _ _ _ (Later-cleanup_expired x.refresh x.cleanup s h) (
        Later-trans _ _ _ (Later-refresh_operation id k x.refresh _)
          (Later-history_found x fp k _ _))

  Later-metadata :
      (k : Bytes) (f : OperationState R → OperationState R) (delivered : Bool)
      (m : Dict (OperationState R))
      → bytes_eq k id ≡ false
      → Later (get id m) (get id (if delivered then update k f m else remove k (update k f m)))
  Later-metadata k f true m other = rw (get-update k id f m, other) (Later-same (get id m))
  Later-metadata k f false m other =
      rw (get-remove k id (update k f m), get-update k id f m, other) (Later-same (get id m))

  Later-step : (e : Event R) (s : Service R) → LeavesAlone e → IsWf c s → LaterOf id s (step c e s)
  unfolding step task_finished metadata_completed
  Later-step (opens x fp request) s l h = Later-open_session x fp request s h
  Later-step (closes_session fp handle) s l h = Later-remove_session handle fp s h.one_operation
  Later-step (gets_info now fp handle) s l h = Later-session_for now handle fp s h.one_operation
  Later-step (starts x fp handle) s l h = Later-start_operation x fp handle s l h
  Later-step (reads x fp handle) s l h = Later-with_operation x fp _ handle s h
  Later-step (closes x fp handle) s l h = Later-remove_operation x fp handle s h
  Later-step (cancels x fp handle) s l h = Later-cancel_operation x fp handle s h
  Later-step (asks_history x fp k) s l h = Later-query_history x fp k s h
  Later-step (cleans x) s l h = Later-cleanup_expired x.refresh x.cleanup s h
  Later-step (ends k joined) s l h =
      Later-update k id _ s.operations (λ o. Kept-state o _ (finished_done joined o.state))
  Later-step (ends_metadata k now completion delivered) s l h =
      Later-metadata k _ delivered s.operations l
  Later-step (abandons k) s l h = Later-take_operation id k s

  -- From a service whose tables are well formed, over any list of events that neither start an operation
  -- under `id` nor end the metadata task of `id`: the entry of `id` afterwards is gone, or it is the same
  -- operation (its secret, session and owner unchanged, and its state unchanged when it was finished, failed
  -- or canceled); an id without an entry gets none.
  pub serve-Later :
      (es : List (Event R)) (s : Service R)
      → AllLeaveAlone es
      → IsWf c s
      → Later (get id s.operations) (get id (serve c es s).operations)
  unfolding serve
  serve-Later [] s l h = Later-same (get id s.operations)
  serve-Later (e ∷ es) s l h =
      Later-trans _ _ _ (Later-step e s l.0 h) (serve-Later es (step c e s) l.1 (IsWf-step c e s h))
