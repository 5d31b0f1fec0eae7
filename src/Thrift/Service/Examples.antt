-- ===== src/Thrift/Service/Examples.antt =====
-- The theorems on the service of src/thrift.rs at concrete states.
use harborsql.Base.{
  inl, ℕ, ◌↔◌, ◌≡◌, refl, none, some, List, [], ◌∷◌, Bytes, ascii, arith, if◌then◌else◌,
}
use harborsql.Base.Text.{bytes_eq}
use harborsql.Base.Dict.{get, update, retain, kept}
use harborsql.Thrift.Requests.{Handle}
use harborsql.Thrift.State.{
  with_state, SessionState, session_is_expired, OperationState, OperationExecution, running,
  task_cancelled, has_finished_task, task_is_finished, is_expired, execution_is_expired,
  take_finished_task,
}
use harborsql.Thrift.Service.{
  Config, Service, session_for, remove_session, cleanup_expired, remove_expired,
  refresh_finished_operations, refresh_all, refresh_operation, finished_ids, retain_operations,
  session_is_live, operation_is_live, expired_session, session_grants, operation_grants,
  session_found, accessed,
}
use harborsql.Thrift.Service.Handlers.{
  Context, cancel_operation, with_operation, cancel_found, operation_found,
}
use harborsql.Thrift.Service.Wf.{IsWf}
use harborsql.Thrift.Service.Events.{
  Event, serve, serve-IsWf, new_service, opens, cancels, reads, starts, ends,
}
use harborsql.Thrift.Service.Events.Lasting.{Later}
use harborsql.Thrift.Service.Events.Life.{serve-Later}
use harborsql.Thrift.Service.Expiring.{IsUsed, IsRecent, HasUsedSession, cleanup_expired_iff}
use harborsql.Thrift.Service.Refresh.{EndsAs, refresh_operation-outcome}
use harborsql.Thrift.Service.Access.{
  Granted, Owned, session_for-Granted, ended-Owned, with_operation-Owned,
}
use harborsql.Thrift.Service.Closing.{
  of_other_session, remove_session-closes, Canceled, cancel_operation-lasts,
}

abbrev config : Config
config = record {
  max_sessions = 2;
  max_operations = 2;
  idle_session_timeout = 1000;
  completed_operation_ttl = 1000;
  default_catalog = ascii "main";
  default_schema = ascii "default";
}

abbrev at_ten : Context
at_ten = record {
  refresh = 10;
  cleanup = 10;
  access = 10;
  new_id = ascii "n";
  new_secret = ascii "y";
}

abbrev token : Bytes
token = ascii "f"

abbrev a_session : SessionState
a_session = record {
  id = ascii "s";
  secret = ascii "x";
  token_fingerprint = token;
  catalog = ascii "main";
  schema = ascii "default";
  last_access = 0;
}

abbrev an_operation : OperationState ℕ
an_operation = record {
  secret = ascii "y";
  session_id = ascii "s";
  token_fingerprint = token;
  state = running 5 none;
}

abbrev busy : Service ℕ
busy = record {
  sessions = (ascii "s", a_session) ∷ [];
  operations = (ascii "o", an_operation) ∷ [];
  log = [];
}

abbrev session_handle : Handle
session_handle = record { id = ascii "s"; secret = ascii "x" }

abbrev operation_handle : Handle
operation_handle = record { id = ascii "o"; secret = ascii "y" }

busy-IsWf : IsWf config busy
unfolding get
busy-IsWf = record {
  one_session = (refl, tt);
  one_operation = (refl, tt);
  sessions_fit = omega arith;
  operations_fit = omega arith;
}

abbrev events : List (Event ℕ)
events =
    opens at_ten token (record { catalog = none; schema = none; get_info_types = [] })
    ∷ starts at_ten token (some session_handle)
    ∷ reads at_ten token (some operation_handle)
    ∷ cancels at_ten token (some operation_handle)
    ∷ ends (ascii "o") task_cancelled
    ∷ []

serve-IsWf_example : IsWf config (serve config events new_service)
serve-IsWf_example = serve-IsWf config events

serve-Later_example :
    Later (get (ascii "o") busy.operations) (get (ascii "o") (serve config events busy).operations)
unfolding bytes_eq
serve-Later_example =
    serve-Later config (ascii "o") events busy (tt, (refl, (tt, (tt, (tt, tt))))) busy-IsWf

session_for-Granted_example :
    Granted config 10 session_handle token
      (accessed 10 a_session)
      busy
      (session_for config 10 (some session_handle) token busy).1
unfolding session_for session_found session_is_expired session_grants get bytes_eq
session_for-Granted_example =
    session_for-Granted config 10 session_handle token busy (accessed 10 a_session) refl

ended-Owned_example : Owned config at_ten token operation_handle (cleanup_expired config 10 10 busy)
unfolding cancel_operation cancel_found get cleanup_expired remove_expired
    refresh_finished_operations refresh_all finished_ids has_finished_task task_is_finished
    retain_operations session_is_live operation_is_live expired_session retain is_expired
    execution_is_expired session_is_expired operation_grants bytes_eq
ended-Owned_example = ended-Owned config at_ten token operation_handle busy (inl refl)

with_operation-Owned_example :
    Owned config at_ten token operation_handle
      (refresh_operation (ascii "o") 10 (cleanup_expired config 10 10 busy))
unfolding with_operation operation_found refresh_operation update take_finished_task get
    cleanup_expired remove_expired refresh_finished_operations refresh_all finished_ids
    has_finished_task task_is_finished retain_operations session_is_live operation_is_live
    expired_session retain is_expired execution_is_expired session_is_expired operation_grants
    bytes_eq
with_operation-Owned_example =
    with_operation-Owned config at_ten token (λ o. o) operation_handle busy refl

remove_session-closes_example :
    let s' = (remove_session (some session_handle) token busy).1 in
    ((j : Bytes)
      → get j s'.sessions ≡ (if bytes_eq (ascii "s") j then none else get j busy.sessions))
    × ((j : Bytes)
        → get j s'.operations ≡ kept (of_other_session (ascii "s")) j (get j busy.operations))
unfolding remove_session get session_grants bytes_eq
remove_session-closes_example =
    remove_session-closes session_handle token busy busy-IsWf.one_operation refl

cleanup_expired_iff_example :
    let r = refresh_finished_operations 10 busy in
    let s' = cleanup_expired config 10 2000 busy in
    ((j : Bytes) (x : SessionState)
      → (get j s'.sessions ≡ some x) ↔ ((get j r.sessions ≡ some x) × IsUsed config 2000 x))
    × ((j : Bytes) (o : OperationState ℕ)
        → (get j s'.operations ≡ some o) ↔ (
            (get j r.operations ≡ some o)
            × (HasUsedSession config 2000 r.sessions o.session_id × IsRecent config 2000 o.state)))
cleanup_expired_iff_example = cleanup_expired_iff config 10 2000 busy busy-IsWf

cancel_operation-lasts_example : Canceled config 5 10 (
    get
      (ascii "o")
      (serve config events
        (cancel_operation config at_ten token (some operation_handle) busy).1).operations)
unfolding cancel_operation cancel_found get cleanup_expired remove_expired
    refresh_finished_operations refresh_all finished_ids has_finished_task task_is_finished
    retain_operations session_is_live operation_is_live expired_session retain is_expired
    execution_is_expired session_is_expired operation_grants bytes_eq
cancel_operation-lasts_example =
    cancel_operation-lasts config at_ten token operation_handle busy an_operation 5 none events
      busy-IsWf (tt, (refl, (tt, (tt, (tt, tt))))) refl refl refl

abbrev ended : Service ℕ
ended = record busy {
  operations = (ascii "o", record an_operation { state = running 5 (some task_cancelled) }) ∷ [];
}

refresh_operation-outcome_example :
    (state : OperationExecution ℕ) × EndsAs 20 5 task_cancelled state
    × ((j : Bytes)
        → get j (refresh_operation (ascii "o") 20 ended).operations ≡ (
            if bytes_eq (ascii "o") j
            then some (with_state an_operation state)
            else get j ended.operations))
unfolding get bytes_eq
refresh_operation-outcome_example =
    refresh_operation-outcome (ascii "o") 20 5 task_cancelled
      (record an_operation { state = running 5 (some task_cancelled) }) ended refl refl
