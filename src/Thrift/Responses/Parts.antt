-- ===== src/Thrift/Responses/Parts.antt =====
-- The parts of responses: src/thrift.rs.
use harborsql.Base.{
  ℕ, Bool, false, ◌||◌, Option, none, some, List, [], ◌∷◌, Bytes, ascii, ◌==◌, if◌then◌else◌,
}
use harborsql.Thrift.Protocol.{
  t_bool, t_i32, t_i64, t_string, t_struct, t_message_reply, t_message_exception,
  spark_cli_service_protocol_v7, execute_statement,
}
use harborsql.Thrift.Protocol.Info.{
  cli_accessible_procedures, cli_accessible_tables, cli_catalog_name, cli_collation_seq,
  cli_cursor_commit_behavior, cli_cursor_sensitivity, cli_data_source_name,
  cli_data_source_read_only, cli_dbms_name, cli_dbms_ver, cli_default_txn_isolation,
  cli_describe_parameter, cli_fetch_direction, cli_identifier_case, cli_identifier_quote_char,
  cli_integrity, cli_max_catalog_name_len, cli_max_column_name_len, cli_max_concurrent_activities,
  cli_max_cursor_name_len, cli_max_driver_connections, cli_max_identifier_len, cli_max_index_size,
  cli_max_row_size, cli_max_schema_name_len, cli_max_statement_len, cli_max_table_name_len,
  cli_max_tables_in_select, cli_max_user_name_len, cli_null_collation,
  cli_order_by_columns_in_select, cli_search_pattern_escape, cli_server_name,
  cli_special_characters, cli_txn_capable, cli_user_name, cli_xopen_cli_year,
}
use harborsql.Thrift.Codec.Writer.{
  Write, ◌⨾◌, new, into_inner, write_message_begin, write_field, write_stop, write_bool, write_i32,
  write_i64, write_string, write_binary,
}

unfoldable pub write_success_response : Bytes → ℕ → Write → Bytes
write_success_response method seqid write_success = into_inner (
    (write_message_begin method t_message_reply seqid
        ⨾ write_field t_struct 0 write_success
        ⨾ write_stop)
      new)

unfoldable pub write_application_exception : Bytes → ℕ → Bytes → Bytes
write_application_exception method seqid text = into_inner (
    (write_message_begin method t_message_exception seqid
        ⨾ write_field t_string 1 (write_string text)
        ⨾ write_field t_i32 2 (write_i32 0)
        ⨾ write_stop)
      new)

abbrev pub write_messages : Option Bytes → Write → Write
write_messages none rest = rest
write_messages (some m) rest =
    write_field t_string 5 (write_string m) ⨾ write_field t_string 6 (write_string m) ⨾ rest

unfoldable pub write_status : ℕ → Option Bytes → Write
write_status status_code text =
    write_field t_i32 1 (write_i32 status_code) ⨾ write_messages text write_stop

unfoldable pub write_operation_status_response : ℕ → ℕ → Bool → Option Bytes → Write
write_operation_status_response status_code operation_state has_result_set text =
    write_field t_struct 1 (write_status status_code text)
    ⨾ write_field t_i32 2 (write_i32 operation_state)
    ⨾ write_field t_bool 9 (write_bool has_result_set)
    ⨾ write_stop

unfoldable pub write_handle_identifier : Bytes → Bytes → Write
write_handle_identifier guid secret =
    write_field t_string 1 (write_binary guid)
    ⨾ write_field t_string 2 (write_binary secret)
    ⨾ write_stop

unfoldable pub write_session_handle : Bytes → Bytes → Write
write_session_handle guid secret =
    write_field t_struct 1 (write_handle_identifier guid secret)
    ⨾ write_field t_i32 3329 (write_i32 spark_cli_service_protocol_v7)
    ⨾ write_stop

unfoldable pub write_operation_handle_with_type : Bytes → Bytes → Bool → ℕ → Write
write_operation_handle_with_type guid secret has_result_set operation_type =
    write_field t_struct 1 (write_handle_identifier guid secret)
    ⨾ write_field t_i32 2 (write_i32 operation_type)
    ⨾ write_field t_bool 3 (write_bool has_result_set)
    ⨾ write_stop

unfoldable pub write_operation_handle : Bytes → Bytes → Bool → Write
write_operation_handle guid secret has_result_set =
    write_operation_handle_with_type guid secret has_result_set execute_statement

unfoldable pub write_namespace : Bytes → Bytes → Write
write_namespace catalog schema =
    write_field t_string 1 (write_string catalog)
    ⨾ write_field t_string 2 (write_string schema)
    ⨾ write_stop

-- A pattern of several constants: `A | B | …`.
unfoldable pub one_of : List ℕ → ℕ → Bool
one_of [] t = false
one_of (c ∷ cs) t = t == c || one_of cs t

unfoldable pub get_info_string : ℕ → Bytes → Bytes
get_info_string t catalog =
    if t == cli_data_source_name || t == cli_server_name
    then ascii "HarborSQL"
    else if t == cli_search_pattern_escape
    then ascii "\\"
    else if t == cli_dbms_name
    then ascii "Spark SQL"
    else if t == cli_dbms_ver
    then ascii "3.1.0"
    else if t == cli_identifier_quote_char
    then ascii "`"
    else if t == cli_catalog_name
    then catalog
    else []

unfoldable pub get_info_len : ℕ → ℕ
unfolding one_of
get_info_len t =
    if one_of
      (cli_max_column_name_len ∷ cli_max_cursor_name_len ∷ cli_max_schema_name_len
        ∷ cli_max_catalog_name_len ∷ cli_max_table_name_len ∷ cli_max_user_name_len
        ∷ cli_max_identifier_len ∷ [])
      t
    then 128
    else 0

unfoldable pub get_info_flag : ℕ → ℕ
unfolding one_of
get_info_flag t =
    if one_of
      (cli_fetch_direction ∷ cli_data_source_read_only ∷ cli_identifier_case
        ∷ cli_order_by_columns_in_select ∷ [])
      t
    then 1
    else if t == cli_xopen_cli_year
    then 2011
    else 0

unfoldable pub write_get_info_string_value : Bytes → Write
write_get_info_string_value value = write_field t_string 1 (write_string value) ⨾ write_stop

-- The types whose value is a string, a length, and a flag; all others are written alike.
abbrev pub string_types : List ℕ
string_types =
    cli_data_source_name ∷ cli_server_name ∷ cli_search_pattern_escape ∷ cli_dbms_name
    ∷ cli_dbms_ver ∷ cli_identifier_quote_char ∷ cli_user_name ∷ cli_catalog_name
    ∷ cli_collation_seq ∷ cli_special_characters ∷ []

abbrev pub len_types : List ℕ
len_types =
    cli_max_driver_connections ∷ cli_max_concurrent_activities ∷ cli_max_column_name_len
    ∷ cli_max_cursor_name_len ∷ cli_max_schema_name_len ∷ cli_max_catalog_name_len
    ∷ cli_max_table_name_len ∷ cli_max_index_size ∷ cli_max_row_size ∷ cli_max_statement_len
    ∷ cli_max_tables_in_select ∷ cli_max_user_name_len ∷ cli_max_identifier_len ∷ []

abbrev pub flag_types : List ℕ
flag_types =
    cli_fetch_direction ∷ cli_cursor_commit_behavior ∷ cli_data_source_read_only
    ∷ cli_default_txn_isolation ∷ cli_identifier_case ∷ cli_accessible_tables
    ∷ cli_accessible_procedures ∷ cli_txn_capable ∷ cli_integrity ∷ cli_null_collation
    ∷ cli_order_by_columns_in_select ∷ cli_xopen_cli_year ∷ cli_cursor_sensitivity
    ∷ cli_describe_parameter ∷ []

unfoldable pub write_get_info_value : ℕ → Bytes → Write
unfolding one_of get_info_string get_info_len get_info_flag
write_get_info_value t catalog =
    if one_of string_types t
    then write_get_info_string_value (get_info_string t catalog)
    else if one_of len_types t
    then write_field t_i64 6 (write_i64 (get_info_len t)) ⨾ write_stop
    else if one_of flag_types t
    then write_field t_i32 4 (write_i32 (get_info_flag t)) ⨾ write_stop
    else write_field t_i32 3 (write_i32 0) ⨾ write_stop
