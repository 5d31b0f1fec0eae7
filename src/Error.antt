-- ===== src/Error.antt =====
-- Errors and what a client sees of them: src/error.rs. The error of another library is held by the
-- text that it displays.
pub mod Outcome
use harborsql.Base.{ℕ, ◌++◌, Bytes, ascii}

pub data HarborError : Type 0 where
  config : Bytes → HarborError
  missing_bearer_token : HarborError
  unsupported_sql unity query unsupported_result_type thrift : Bytes → HarborError
  http url delta data_fusion arrow_json json logger io : Bytes → HarborError

abbrev unauthorized : ℕ
unauthorized = 401

abbrev bad_request : ℕ
bad_request = 400

abbrev bad_gateway : ℕ
bad_gateway = 502

abbrev unprocessable_entity : ℕ
unprocessable_entity = 422

abbrev internal_server_error : ℕ
internal_server_error = 500

pub status_code : HarborError → ℕ
status_code missing_bearer_token = unauthorized
status_code (config _) = bad_request
status_code (unsupported_sql _) = bad_request
status_code (thrift _) = bad_request
status_code (unity _) = bad_gateway
status_code (query _) = unprocessable_entity
status_code (unsupported_result_type _) = unprocessable_entity
status_code (delta _) = unprocessable_entity
status_code (data_fusion _) = unprocessable_entity
status_code (arrow_json _) = unprocessable_entity
status_code (http _) = internal_server_error
status_code (url _) = internal_server_error
status_code (json _) = internal_server_error
status_code (logger _) = internal_server_error
status_code (io _) = internal_server_error

pub record ClientError : Type 0 where
  pub code : Bytes
  pub message : Bytes

abbrev client : Bytes → Bytes → ClientError
client code message = record { code = code; message = message }

unfoldable pub internal : ClientError
internal = client (ascii "INTERNAL_ERROR") (ascii "internal server error")

unfoldable pub status_message : ClientError → Bytes
status_message e = e.code ++ (ascii ": " ++ e.message)

unfoldable pub client_error : HarborError → ClientError
unfolding internal
client_error (config _) = client (ascii "CONFIG_INVALID") (ascii "invalid configuration")
client_error missing_bearer_token = client (ascii "UNAUTHORIZED") (ascii "missing bearer token")
client_error (unsupported_sql _) = client (ascii "UNSUPPORTED_SQL") (ascii "unsupported SQL")
client_error (unity _) = client (ascii "UNITY_CATALOG_ERROR") (ascii "Unity Catalog request failed")
client_error (query _) = client (ascii "QUERY_FAILED") (ascii "query execution failed")
client_error (unsupported_result_type _) =
    client (ascii "UNSUPPORTED_RESULT_TYPE") (ascii "unsupported result column type")
client_error (thrift _) = client (ascii "THRIFT_PROTOCOL_ERROR") (ascii "invalid Thrift request")
client_error (http _) = client (ascii "UPSTREAM_HTTP_ERROR") (ascii "upstream HTTP request failed")
client_error (url _) = client (ascii "INVALID_URL") (ascii "invalid URL")
client_error (delta _) = client (ascii "DELTA_TABLE_ERROR") (ascii "Delta table operation failed")
client_error (data_fusion _) =
    client (ascii "DATAFUSION_ERROR") (ascii "query planning or execution failed")
client_error (arrow_json _) =
    client (ascii "RESULT_ENCODING_ERROR") (ascii "result encoding failed")
client_error (json _) = client (ascii "JSON_ERROR") (ascii "JSON processing failed")
client_error (logger _) = internal
client_error (io _) = internal
