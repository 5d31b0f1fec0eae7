-- ===== src/Thrift/Requests/Safe.antt =====
-- The end of decoding requests, and the cursor: src/thrift.rs.
use harborsql.Base.{ℕ, zero, suc, ◌<◌, ◌≢◌, refl, Option, none, some, arith, ◌==◌, ◌&&◌, Bytes}
use harborsql.Thrift.Protocol.{t_stop, t_struct}
use harborsql.Thrift.Result.{Result, ok, err, stuck}
use harborsql.Thrift.Uuids.{Uuids}
use harborsql.Thrift.Codec.Reader
use harborsql.Thrift.Codec.Reader.{Reader, Parse, ◌>>=◌, pure, fail, remaining, read_field_begin}
use harborsql.Thrift.Codec.Reader.Safe.{
  IsValid, Outcome, Outcome-if, Safe, safe_rules, Safe-pure, Safe-fail, Safe-bind, bind-Outcome,
  read_field_begin-SafeBy,
}
use harborsql.Thrift.Codec.Skip.{skip, skip_remaining_struct_fields}
use harborsql.Thrift.Codec.Skip.Safe.{
  Safe-skip, Safe-skip_remaining_struct_fields, Safe-read_fields, Safe-repeat, shrinks,
}
use harborsql.Thrift.Requests.{
  Message, with_payload, message, decode_message, args_loop, args, read_args, read_namespace,
  read_i32s, read_i32_list, read_open_session_req, read_handle_identifier, read_session_handle,
  read_operation_handle, read_close_session_req, read_get_info_req, read_get_columns_req,
  statement_or_error, read_execute_statement_req, read_operation_req, read_fetch_results_req,
  StatementFields,
}

ruleset rules = (safe_rules, Safe-skip, Safe-read_fields)

Safe-namespace : Safe read_namespace
unfolding read_namespace
Safe-namespace = Safe-read_fields _ (λ s t id. search rules) _

Safe-read_i32s : (n : ℕ) → Safe (read_i32s n)
unfolding read_i32s
Safe-read_i32s zero = search rules
Safe-read_i32s (suc n) = let rec = Safe-read_i32s n in search rules depth 7

Safe-read_i32_list : Safe read_i32_list
unfolding read_i32_list
Safe-read_i32_list = search (rules, Safe-repeat, Safe-read_i32s) depth 12

pub Safe-read_open_session_req : Safe read_open_session_req
unfolding read_open_session_req
Safe-read_open_session_req =
    Safe-read_fields _ (λ s t id. search (rules, Safe-namespace, Safe-read_i32_list) depth 9) _

start : (bytes : Bytes) → IsValid (Reader.new bytes)
start bytes = record { within = omega arith }

module _ (u : Uuids) where
  Safe-read_handle_identifier : Safe (read_handle_identifier u)
  unfolding read_handle_identifier
  Safe-read_handle_identifier =
      Safe-bind _ _ (Safe-read_fields _ (λ s t id. search rules depth 9) _) λ s. Safe-pure _

  Safe-read_session_handle : Safe (read_session_handle u)
  unfolding read_session_handle
  Safe-read_session_handle =
      Safe-read_fields _ (λ s t id. search (rules, Safe-read_handle_identifier)) _

  Safe-read_operation_handle : Safe (read_operation_handle u)
  unfolding read_operation_handle
  Safe-read_operation_handle =
      Safe-read_fields _ (λ s t id. search (rules, Safe-read_handle_identifier)) _

  pub Safe-read_close_session_req : Safe (read_close_session_req u)
  unfolding read_close_session_req
  Safe-read_close_session_req =
      Safe-read_fields _ (λ s t id. search (rules, Safe-read_session_handle)) _

  pub Safe-read_get_info_req : Safe (read_get_info_req u)
  unfolding read_get_info_req
  Safe-read_get_info_req =
      Safe-bind _ _
        (Safe-read_fields _ (λ s t id. search (rules, Safe-read_session_handle) depth 9) _)
        λ s. Safe-pure _

  pub Safe-read_get_columns_req : Safe (read_get_columns_req u)
  unfolding read_get_columns_req
  Safe-read_get_columns_req =
      Safe-read_fields _ (λ s t id. search (rules, Safe-read_session_handle) depth 12) _

  Safe-statement_or_error :
      (s : StatementFields) (o : Option Bytes) → Safe (statement_or_error u s o)
  unfolding statement_or_error
  Safe-statement_or_error s none = Safe-fail 0 _
  Safe-statement_or_error s (some sql) = Safe-pure _

  pub Safe-read_execute_statement_req : Safe (read_execute_statement_req u)
  unfolding read_execute_statement_req
  Safe-read_execute_statement_req =
      Safe-bind _ _
        (Safe-read_fields _ (λ s t id. search (rules, Safe-read_session_handle) depth 9) _)
        λ s. Safe-statement_or_error s s.statement

  pub Safe-read_operation_req : Safe (read_operation_req u)
  unfolding read_operation_req
  Safe-read_operation_req =
      Safe-read_fields _ (λ s t id. search (rules, Safe-read_operation_handle)) _

  pub Safe-read_fetch_results_req : Safe (read_fetch_results_req u)
  unfolding read_fetch_results_req
  Safe-read_fetch_results_req =
      Safe-read_fields _ (λ s t id. search (rules, Safe-read_operation_handle) depth 9) _

module _ {ℓ} {A : Type ℓ} (parse : Parse A) (s : Safe parse) where
  request_found : Safe (parse >>= λ request. skip_remaining_struct_fields >>= λ _. pure request)
  request_found =
      Safe-bind _ _ s
        λ request. Safe-bind _ _ Safe-skip_remaining_struct_fields λ _. Safe-pure request

  args_loop-Outcome :
      (fuel : ℕ) (r : Reader)
      → IsValid r
      → remaining r < fuel
      → Outcome 0 r (args_loop fuel parse r)
  unfolding args_loop fail
  args_loop-Outcome zero r v h = absurd (omega arith)
  args_loop-Outcome (suc fuel) r v h =
      bind-Outcome 1 0 0 read_field_begin _ r (omega arith) (read_field_begin-SafeBy.at r v)
        λ (t, id) r' a.
          let v' : IsValid r' = record { within = a.within } in
          Outcome-if 0 (t == t_stop) _ _ r' (λ _. tt)
            λ _.
              Outcome-if 0 (id == 1 && t == t_struct) _ _ r' (λ _. request_found.at r' v')
                λ _.
                  bind-Outcome 0 0 0 (skip t) _ r' (omega arith) ((Safe-skip t).at r' v')
                    λ _ r'' a'.
                      args_loop-Outcome fuel r'' (record { within = a'.within })
                        (shrinks fuel r r' r'' h a a')

  Safe-args : Safe (args parse)
  unfolding args
  Safe-args = record { at = λ r v. args_loop-Outcome (suc (remaining r)) r v (omega arith) }

  pub read_args-ne-stuck : (payload : Bytes) → read_args payload parse ≢ stuck
  unfolding read_args
  read_args-ne-stuck payload = go (args parse (Reader.new payload)) (Safe-args.at _ (start payload))
    where
      go :
          (o : Result (A × Reader))
          → Outcome 0 (Reader.new payload) o
          → (elim o as (λ _. Result A) [
            | ok (request, r) ↦ ok request
            | err e ↦ err e
            | stuck ↦ stuck
          ])
            ≢ stuck
      go (ok (a, r)) h = λ e. cc
      go (err x) h = λ e. cc
      go stuck h = absurd h

Safe-with_payload :
    (version : ℕ) (name : Bytes) (seqid : ℕ) → Safe (with_payload version name seqid)
unfolding with_payload
Safe-with_payload version name seqid = record {
  at = λ r v. record { same_buffer = refl; forward = omega arith; within = v.within };
}

Safe-message : Safe message
unfolding message
Safe-message = search (safe_rules, Safe-with_payload) depth 9

-- Decoding a message ends on every sequence of bytes.
pub decode_message-ne-stuck : (body : Bytes) → decode_message body ≢ stuck
unfolding decode_message
decode_message-ne-stuck body = go (message (Reader.new body)) (Safe-message.at _ (start body))
  where
    go :
        (o : Result (Message × Reader))
        → Outcome 0 (Reader.new body) o
        → (elim o as (λ _. Result Message) [ ok (m, r) ↦ ok m | err e ↦ err e | stuck ↦ stuck ])
          ≢ stuck
    go (ok (m, r)) h = λ e. cc
    go (err x) h = λ e. cc
    go stuck h = absurd h

-- Decoding the arguments of a method ends on every payload, for each of the methods.
pub read_args_end :
    (u : Uuids) (payload : Bytes)
    → (read_args payload read_open_session_req ≢ stuck)
      × (read_args payload (read_close_session_req u) ≢ stuck)
      × (read_args payload (read_get_info_req u) ≢ stuck)
      × (read_args payload (read_get_columns_req u) ≢ stuck)
      × (read_args payload (read_execute_statement_req u) ≢ stuck)
      × (read_args payload (read_operation_req u) ≢ stuck)
      × (read_args payload (read_fetch_results_req u) ≢ stuck)
read_args_end u payload = (
  read_args-ne-stuck _ Safe-read_open_session_req payload,
  read_args-ne-stuck _ (Safe-read_close_session_req u) payload,
  read_args-ne-stuck _ (Safe-read_get_info_req u) payload,
  read_args-ne-stuck _ (Safe-read_get_columns_req u) payload,
  read_args-ne-stuck _ (Safe-read_execute_statement_req u) payload,
  read_args-ne-stuck _ (Safe-read_operation_req u) payload,
  read_args-ne-stuck _ (Safe-read_fetch_results_req u) payload,
)
