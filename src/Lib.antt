-- ===== src/Lib.antt =====
-- HarborSQL answers SQL and metadata requests of Databricks clients over the Thrift binary protocol, with
-- tables that Unity Catalog describes. This library models its Thrift service with the bytes of its requests
-- and responses, the metadata requests, the paging and the encoding of results, the cache of loaded tables and
-- the routing of paths to object stores.
--
-- A request is the body of an HTTP call with a bearer token. The service decodes it, keeps sessions and
-- operations, starts the work of a query on a task, and answers with a reply that the codec writes.
--
-- Base: shared names and helpers: tests on numbers, lists, byte strings, and hash maps as lists of entries;
--   texts (Base.Chars) and sorting by an order (Base.Sort).
-- Error: src/error.rs: the errors, their HTTP status, and what a client sees of them. Error.Outcome: the
--   results of fallible code, with `do` blocks, and what holds of a result when there is no error.
-- Thrift.Protocol: src/thrift/protocol.rs. Thrift.Codec: src/thrift/codec.rs: the cursor that reads (Reader),
--   the skipping of unknown fields (Skip), and the writer (Writer).
-- Thrift.Requests: the part of src/thrift.rs from `decode_message` to `read_handle_identifier`.
-- Thrift.Responses: the functions `write_…` of src/thrift.rs but for those of result sets.
-- Thrift.ResultSets: src/thrift/result_encoding.rs: the types of columns and the schema (Encoders), the values of
--   arrays (Values), the columns of a page (Rows), and the responses of src/thrift.rs to GetResultSetMetadata and
--   FetchResults (Fetch). A writer that fails, as in `write_field_result`, gives its error before anything is
--   written.
-- Thrift.State: src/thrift/state.rs. Thrift.Service: the methods of `DatabricksThriftService` of
--   src/thrift.rs that read and change the tables of sessions and operations, and what each method of
--   `handle_decoded` does to them (Service.Handlers). Service.Events puts the requests, the ends of tasks and
--   the clean-ups of the background task into one sequence of events.
-- TableCache: src/table_cache.rs: the slots of loaded tables, per principal, table and region, and the steps
--   of concurrent callers of `get_or_load` in any order; calls one after another are compared with a log of the
--   answers (TableCache.Origin).
-- Results: the pages of `InlineResultStore` in src/engine.rs, the row limits of FetchResults and the bitset
--   of the nulls of a column in src/thrift/result_encoding.rs, and `materialize_stream` of src/engine/results.rs;
--   a client that fetches page after page (Results.Fetching).
-- Metadata: src/engine/metadata: the statements (Statements) and the parser of SHOW (Parser), the patterns of
--   names (Patterns), the names of tables and their resolution (Infos, Names), the description of columns
--   (Columns), the results (Results) and the listings (Execute). The records that describe tables are those of
--   src/unity.rs.
-- Routing: `PrefixRoutingObjectStore` of src/engine.rs: which object store, and so which credentials, a path
--   gets.
--
-- Numbers are natural numbers. A signed integer of the protocol is its bit pattern. An instant is a number of
-- nanoseconds and an argument wherever the code reads the clock; the conversion of a duration to milliseconds
-- keeps its reduction to 64 bits. Fuel: the loop over the fields of a struct gets one more than the bytes that
-- are left, since each round reads a byte at least; skipping nests 34 levels, since the code refuses a depth
-- above 32. A model that ran out of fuel would give `stuck`, which is no value of the code.
-- The methods of the service hold a lock for a whole step; a request is one event, so the model has the
-- interleavings of whole requests with the ends of tasks, and not those inside a request.
-- A name in the metadata is a list of characters; the text of an error leaves out the tokens, types and numbers
-- that it shows. Arrow arrays are lists of slots.
-- Parameters: the `uuid` crate (Thrift.Uuids), record batches of the `arrow` crate (Results.Batches) and what it
--   and `serde_json` print (Formats of Thrift.ResultSets.Values), the `regex` crate with the law that an
--   expression of escaped texts and wildcards, if it builds, matches what it says (Metadata.Regexes), the tokens
--   of the `sqlparser` crate, and the Unity Catalog client behind `MetadataSource`; the fingerprint of a token, which
--   is an argument.
--
-- Not modelled: the rewriting and running of SQL and the JSON form of results, the information schema and the
-- catalog provider, user functions, the Unity Catalog client, writing to tables, the HTTP server, logging and
-- metrics, and of the configuration all but the settings of the Thrift service. Most of these parts are calls
-- of DataFusion, Delta, axum and HTTP libraries.
pub mod Base
pub mod Error
pub mod TableCache
pub mod Results
pub mod Routing
pub mod Thrift
pub mod Metadata
