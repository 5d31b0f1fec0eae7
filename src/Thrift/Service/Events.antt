-- ===== src/Thrift/Service/Events.antt =====
-- Everything that happens to the service, one event after another: the requests of src/thrift.rs that
-- keep state, the end of a task, and the removal of an operation that nobody waits for.
pub mod Lasting
pub mod Life
use harborsql.Base.{ℕ, Bool, Option, List, [], ◌∷◌, Bytes, arith}
use harborsql.Thrift.Requests.{Handle, OpenSessionReq}
use harborsql.Thrift.State.{OperationState, OperationCompletion, Joined}
use harborsql.Thrift.Service.{Config, Service, session_for, remove_session, cleanup_expired}
use harborsql.Thrift.Service.Handlers.{
  Context, open_session, start_operation, with_operation, remove_operation, cancel_operation,
  query_history, task_finished, metadata_completed, take_operation,
}
use harborsql.Thrift.Service.Wf.{
  IsWf, IsWf-remove_session, IsWf-session_for, IsWf-take_operation, IsWf-cleanup_expired,
}
use harborsql.Thrift.Service.Wf.Handlers.{
  IsWf-open_session, IsWf-start_operation, IsWf-with_operation, IsWf-remove_operation,
  IsWf-cancel_operation, IsWf-query_history, IsWf-task_finished, IsWf-metadata_completed,
}

-- Each request comes with its context, the fingerprint of its token, and what it asks for.
pub data Event (R : Type 0) : Type 0 where
  opens : Context → Bytes → OpenSessionReq → Event R
  closes_session : Bytes → Option Handle → Event R
  gets_info : ℕ → Bytes → Option Handle → Event R
  starts : Context → Bytes → Option Handle → Event R
  reads : Context → Bytes → Option Handle → Event R
  closes : Context → Bytes → Option Handle → Event R
  cancels : Context → Bytes → Option Handle → Event R
  asks_history : Context → Bytes → Bytes → Event R
  cleans : Context → Event R
  ends : Bytes → Joined R → Event R
  ends_metadata : Bytes → ℕ → OperationCompletion R → Bool → Event R
  abandons : Bytes → Event R

abbrev pub new_service : {R : Type 0} → Service R
new_service = record { sessions = []; operations = []; log = [] }

module _ {R : Type 0} (c : Config) where
  unfoldable pub step : Event R → Service R → Service R
  step (opens x fp request) s = (open_session c x fp request s).1
  step (closes_session fp handle) s = (remove_session handle fp s).1
  step (gets_info now fp handle) s = (session_for c now handle fp s).1
  step (starts x fp handle) s = (start_operation c x fp handle s).1
  step (reads x fp handle) s = (with_operation c x fp (λ o. o) handle s).1
  step (closes x fp handle) s = (remove_operation c x fp handle s).1
  step (cancels x fp handle) s = (cancel_operation c x fp handle s).1
  step (asks_history x fp id) s = (query_history c x fp id s).1
  step (cleans x) s = cleanup_expired c x.refresh x.cleanup s
  step (ends id joined) s = task_finished id joined s
  step (ends_metadata id now completion delivered) s =
      metadata_completed id now completion delivered s
  step (abandons id) s = take_operation id s

  unfoldable pub serve : List (Event R) → Service R → Service R
  unfolding step
  serve [] s = s
  serve (e ∷ es) s = serve es (step e s)

  pub IsWf-step : (e : Event R) (s : Service R) → IsWf c s → IsWf c (step e s)
  unfolding step
  IsWf-step (opens x fp request) s h = IsWf-open_session c x fp request s h
  IsWf-step (closes_session fp handle) s h = IsWf-remove_session c handle fp s h
  IsWf-step (gets_info now fp handle) s h = IsWf-session_for c now handle fp s h
  IsWf-step (starts x fp handle) s h = IsWf-start_operation c x fp handle s h
  IsWf-step (reads x fp handle) s h = IsWf-with_operation c x fp _ handle s h
  IsWf-step (closes x fp handle) s h = IsWf-remove_operation c x fp handle s h
  IsWf-step (cancels x fp handle) s h = IsWf-cancel_operation c x fp handle s h
  IsWf-step (asks_history x fp id) s h = IsWf-query_history c x fp id s h
  IsWf-step (cleans x) s h = IsWf-cleanup_expired c x.refresh x.cleanup s h
  IsWf-step (ends id joined) s h = IsWf-task_finished c id joined s h
  IsWf-step (ends_metadata id now completion delivered) s h =
      IsWf-metadata_completed c id now completion delivered s h
  IsWf-step (abandons id) s h = IsWf-take_operation c id s h

  pub IsWf-serve : (es : List (Event R)) (s : Service R) → IsWf c s → IsWf c (serve es s)
  unfolding serve
  IsWf-serve [] s h = h
  IsWf-serve (e ∷ es) s h = IsWf-serve es (step e s) (IsWf-step e s h)

  -- A service that starts empty has, after any list of events, one entry for every session id and every
  -- operation id, at most `max_sessions` sessions and at most `max_operations` operations.
  pub serve-IsWf : (es : List (Event R)) → IsWf c (serve es new_service)
  serve-IsWf es = IsWf-serve es new_service (record {
    one_session = tt;
    one_operation = tt;
    sessions_fit = omega arith;
    operations_fit = omega arith;
  })
