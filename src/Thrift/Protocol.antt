-- ===== src/Thrift/Protocol.antt =====
-- Constants of the binary protocol, and the test on field types: src/thrift/protocol.rs.
pub mod Info
use harborsql.Base.{ℕ, Bool, ◌||◌, ◌==◌}

abbrev pub t_stop : ℕ
t_stop = 0

abbrev pub t_bool : ℕ
t_bool = 2

abbrev pub t_byte : ℕ
t_byte = 3

abbrev pub t_double : ℕ
t_double = 4

abbrev pub t_i16 : ℕ
t_i16 = 6

abbrev pub t_i32 : ℕ
t_i32 = 8

abbrev pub t_i64 : ℕ
t_i64 = 10

abbrev pub t_string : ℕ
t_string = 11

abbrev pub t_struct : ℕ
t_struct = 12

abbrev pub t_map : ℕ
t_map = 13

abbrev pub t_set : ℕ
t_set = 14

abbrev pub t_list : ℕ
t_list = 15

abbrev pub t_message_call : ℕ
t_message_call = 1

abbrev pub t_message_reply : ℕ
t_message_reply = 2

abbrev pub t_message_exception : ℕ
t_message_exception = 3

abbrev pub t_binary_version_1 : ℕ
t_binary_version_1 = 0x8001_0000

abbrev pub spark_cli_service_protocol_v7 : ℕ
spark_cli_service_protocol_v7 = 42247

abbrev pub success_status : ℕ
success_status = 0

abbrev pub error_status : ℕ
error_status = 3

abbrev pub invalid_handle_status : ℕ
invalid_handle_status = 4

abbrev pub running_state : ℕ
running_state = 1

abbrev pub finished_state : ℕ
finished_state = 2

abbrev pub canceled_state : ℕ
canceled_state = 3

abbrev pub error_state : ℕ
error_state = 5

abbrev pub execute_statement : ℕ
execute_statement = 0

abbrev pub get_columns : ℕ
get_columns = 6

abbrev pub default_fetch_rows : ℕ
default_fetch_rows = 1_000

abbrev pub max_fetch_rows : ℕ
max_fetch_rows = 10_000

abbrev pub boolean_type : ℕ
boolean_type = 0

abbrev pub tinyint_type : ℕ
tinyint_type = 1

abbrev pub smallint_type : ℕ
smallint_type = 2

abbrev pub int_type : ℕ
int_type = 3

abbrev pub bigint_type : ℕ
bigint_type = 4

abbrev pub float_type : ℕ
float_type = 5

abbrev pub double_type : ℕ
double_type = 6

abbrev pub string_type : ℕ
string_type = 7

abbrev pub timestamp_type : ℕ
timestamp_type = 8

abbrev pub binary_type : ℕ
binary_type = 9

abbrev pub array_type : ℕ
array_type = 10

abbrev pub map_type : ℕ
map_type = 11

abbrev pub struct_type : ℕ
struct_type = 12

abbrev pub decimal_type : ℕ
decimal_type = 15

abbrev pub date_type : ℕ
date_type = 17

abbrev pub column_based_set : ℕ
column_based_set = 1

unfoldable pub valid_field_type : ℕ → Bool
valid_field_type t =
    t == t_bool
    || t == t_byte
    || t == t_double
    || t == t_i16
    || t == t_i32
    || t == t_i64
    || t == t_string
    || t == t_struct
    || t == t_map
    || t == t_set
    || t == t_list
