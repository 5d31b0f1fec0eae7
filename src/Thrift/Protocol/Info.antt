-- ===== src/Thrift/Protocol/Info.antt =====
-- Information types of `GetInfo`: the `CLI_…` constants of src/thrift/protocol.rs.
use harborsql.Base.{ℕ}

abbrev pub cli_max_driver_connections : ℕ
cli_max_driver_connections = 0

abbrev pub cli_max_concurrent_activities : ℕ
cli_max_concurrent_activities = 1

abbrev pub cli_data_source_name : ℕ
cli_data_source_name = 2

abbrev pub cli_fetch_direction : ℕ
cli_fetch_direction = 8

abbrev pub cli_server_name : ℕ
cli_server_name = 13

abbrev pub cli_search_pattern_escape : ℕ
cli_search_pattern_escape = 14

abbrev pub cli_dbms_name : ℕ
cli_dbms_name = 17

abbrev pub cli_dbms_ver : ℕ
cli_dbms_ver = 18

abbrev pub cli_accessible_tables : ℕ
cli_accessible_tables = 19

abbrev pub cli_accessible_procedures : ℕ
cli_accessible_procedures = 20

abbrev pub cli_cursor_commit_behavior : ℕ
cli_cursor_commit_behavior = 23

abbrev pub cli_data_source_read_only : ℕ
cli_data_source_read_only = 25

abbrev pub cli_default_txn_isolation : ℕ
cli_default_txn_isolation = 26

abbrev pub cli_identifier_case : ℕ
cli_identifier_case = 28

abbrev pub cli_identifier_quote_char : ℕ
cli_identifier_quote_char = 29

abbrev pub cli_max_column_name_len : ℕ
cli_max_column_name_len = 30

abbrev pub cli_max_cursor_name_len : ℕ
cli_max_cursor_name_len = 31

abbrev pub cli_max_schema_name_len : ℕ
cli_max_schema_name_len = 32

abbrev pub cli_max_catalog_name_len : ℕ
cli_max_catalog_name_len = 34

abbrev pub cli_max_table_name_len : ℕ
cli_max_table_name_len = 35

abbrev pub cli_txn_capable : ℕ
cli_txn_capable = 46

abbrev pub cli_user_name : ℕ
cli_user_name = 47

abbrev pub cli_txn_isolation_option : ℕ
cli_txn_isolation_option = 72

abbrev pub cli_integrity : ℕ
cli_integrity = 73

abbrev pub cli_getdata_extensions : ℕ
cli_getdata_extensions = 81

abbrev pub cli_null_collation : ℕ
cli_null_collation = 85

abbrev pub cli_alter_table : ℕ
cli_alter_table = 86

abbrev pub cli_order_by_columns_in_select : ℕ
cli_order_by_columns_in_select = 90

abbrev pub cli_special_characters : ℕ
cli_special_characters = 94

abbrev pub cli_max_columns_in_group_by : ℕ
cli_max_columns_in_group_by = 97

abbrev pub cli_max_columns_in_index : ℕ
cli_max_columns_in_index = 98

abbrev pub cli_max_columns_in_order_by : ℕ
cli_max_columns_in_order_by = 99

abbrev pub cli_max_columns_in_select : ℕ
cli_max_columns_in_select = 100

abbrev pub cli_max_columns_in_table : ℕ
cli_max_columns_in_table = 101

abbrev pub cli_max_index_size : ℕ
cli_max_index_size = 102

abbrev pub cli_max_row_size : ℕ
cli_max_row_size = 104

abbrev pub cli_max_statement_len : ℕ
cli_max_statement_len = 105

abbrev pub cli_max_tables_in_select : ℕ
cli_max_tables_in_select = 106

abbrev pub cli_max_user_name_len : ℕ
cli_max_user_name_len = 107

abbrev pub cli_oj_capabilities : ℕ
cli_oj_capabilities = 115

abbrev pub cli_xopen_cli_year : ℕ
cli_xopen_cli_year = 10000

abbrev pub cli_cursor_sensitivity : ℕ
cli_cursor_sensitivity = 10001

abbrev pub cli_describe_parameter : ℕ
cli_describe_parameter = 10002

abbrev pub cli_catalog_name : ℕ
cli_catalog_name = 10003

abbrev pub cli_collation_seq : ℕ
cli_collation_seq = 10004

abbrev pub cli_max_identifier_len : ℕ
cli_max_identifier_len = 10005
