-- ===== src/Thrift/Service/Closing.antt =====
-- The ends of sessions and operations: CloseSession and CancelOperation of src/thrift.rs.
use harborsql.Base.{
  ℕ, ◌≡◌, refl, ◌∙◌, ap, Bool, true, not, Option, none, some, List, Bytes, bytes_eq, bytes_eq_iff,
  arith, Bool-cases, inl, inr, if◌then◌else◌,
}
use harborsql.Base.Dict.{get, update, kept, get-retain, get-remove, get-update, Distinct}
use harborsql.Thrift.Requests.{Handle}
use harborsql.Thrift.State.{
  OperationState, running, canceled, Task, is_active, duration_ms, elapsed_ms, cancel, canceled_now,
  abort,
}
use harborsql.Thrift.Service.{
  Config, Service, session_valid, remove_session, remove_session_entry,
  remove_operations_for_session, retain_operations, cleanup_expired,
}
use harborsql.Thrift.Service.Handlers.{
  Context, operation_valid, abort_log, cancel_operation, cancel_found,
}
use harborsql.Thrift.Service.Wf.{IsWf}
use harborsql.Thrift.Service.Wf.Handlers.{IsWf-cancel_operation}
use harborsql.Thrift.Service.Events.{Event, serve}
use harborsql.Thrift.Service.Events.Lasting.{Later}
use harborsql.Thrift.Service.Events.Life.{AllLeaveAlone, serve-Later}

module _ {R : Type 0} where
  -- The operations of other sessions.
  abbrev pub of_other_session : Bytes → Bytes → OperationState R → Bool
  of_other_session session id o = not (bytes_eq o.session_id session)

  -- When CloseSession answers that it closed the session of a handle: that id has no session any more, every
  -- other session is as it was, and of the operations exactly those of that session are gone.
  pub remove_session-closes :
      (k : Handle) (fp : Bytes) (s : Service R)
      → Distinct s.operations
      → (remove_session (some k) fp s).0 ≡ true
      → let s' = (remove_session (some k) fp s).1 in
        ((j : Bytes) → get j s'.sessions ≡ (if bytes_eq k.id j then none else get j s.sessions))
        × ((j : Bytes) → get j s'.operations ≡ kept (of_other_session k.id) j (get j s.operations))
  unfolding remove_session remove_operations_for_session remove_session_entry retain_operations
  remove_session-closes k fp s d = elim (Bool-cases (session_valid (get k.id s.sessions) k fp)) [
    | inl e ↦ rw e (λ _. (λ j. get-remove k.id j s.sessions, λ j. get-retain _ j s.operations d))
    | inr e ↦ rw e (λ h. absurd (ground (arith, h)))
  ]

module _ {R : Type 0} (c : Config) where
  -- What an answer to a cancellation leads to, for the operation under `id`.
  abbrev pub Canceled : ℕ → ℕ → Option (OperationState R) → Type 0
  Canceled started now none = Unit
  Canceled started now (some o) = o.state ≡ canceled (elapsed_ms now started) now

  Canceled-Later :
      (started now : ℕ) (o p : Option (OperationState R))
      → Canceled started now o
      → Later o p
      → Canceled started now p
  unfolding is_active
  Canceled-Later started now o none h l = tt
  Canceled-Later started now none (some p) h l = absurd l
  Canceled-Later started now (some o) (some p) h l = elim l.done_stays [
    | inl a ↦ absurd (ground (arith, a, ap is_active h))
    | inr e ↦ e ∙ h
  ]

  canceled_running :
      (now started : ℕ) (task : Task R) (o : OperationState R)
      → o.state ≡ running started task
      → (cancel now o).state ≡ canceled (elapsed_ms now started) now
  unfolding cancel canceled_now duration_ms
  canceled_running now started task o h = rw h refl

  get-abort_log :
      (j k : Bytes) (o : Option (OperationState R)) (s : Service R)
      → get j (abort_log k o s).operations ≡ get j s.operations
  get-abort_log j k none s = refl
  get-abort_log j k (some o) s = elim (Bool-cases (abort o)) [
    | inl e ↦ rw e refl
    | inr e ↦ rw e refl
  ]

  cancel_found-Canceled :
      (x : Context) (fp : Bytes) (k : Handle) (s : Service R) (o : OperationState R) (started : ℕ)
      (task : Task R)
      → get k.id s.operations ≡ some o
      → o.state ≡ running started task
      → (cancel_found c x fp k s).0 ≡ true
      → Canceled started x.access (get k.id (cancel_found c x fp k s).1.operations)
  unfolding cancel_found
  cancel_found-Canceled x fp k s o started task e r =
      elim (Bool-cases (operation_valid fp (get k.id s.operations) k)) [
        | inl y ↦
            rw
              (
                y,
                get-abort_log k.id k.id (get k.id s.operations)
                    (record s { operations = update k.id (cancel x.access) s.operations }),
                get-update k.id k.id (cancel x.access) s.operations,
                (bytes_eq_iff k.id k.id).1 refl,
                e,
              )
              (λ _. canceled_running x.access started task o r)
        | inr y ↦ rw y (λ h. absurd (ground (arith, h)))
      ]

  -- When CancelOperation is answered with success and the entry of the handle's id, after the clean-up, is
  -- running: after any further events that do not start an operation under this id or end its metadata
  -- task, the entry is gone or is canceled, with the time of the cancellation and the duration until then.
  pub cancel_operation-lasts :
      (x : Context) (fp : Bytes) (k : Handle) (s : Service R) (o : OperationState R) (started : ℕ)
      (task : Task R) (es : List (Event R))
      → IsWf c s
      → AllLeaveAlone c k.id es
      → get k.id (cleanup_expired c x.refresh x.cleanup s).operations ≡ some o
      → o.state ≡ running started task
      → (cancel_operation c x fp (some k) s).0 ≡ true
      → Canceled started x.access
          (get k.id (serve c es (cancel_operation c x fp (some k) s).1).operations)
  unfolding cancel_operation
  cancel_operation-lasts x fp k s o started task es h l e r granted =
      Canceled-Later started x.access _ _
        (cancel_found-Canceled x fp k _ o started task e r granted)
        (serve-Later c k.id es _ l (IsWf-cancel_operation c x fp (some k) s h))
