-- ===== src/Thrift/ResultSets/Fetch/Replies.antt =====
-- The responses with result sets as replies of the protocol: GetResultSetMetadata and FetchResults of
-- src/thrift.rs.
use harborsql.Base.{
  ℕ, ◌+◌, ◌^◌, ◌≤◌, ◌<◌, ◌≡◌, refl, sym, ap, ◌∙◌, Bool, true, false, Option, none, some, List, [],
  ◌∷◌, Bytes, length, All, arith, ascii, min, leb, ◌==◌, ◌-◌, Bool-cases, inl, inr,
}
use harborsql.Error.{
  HarborError, missing_bearer_token, config, unsupported_sql, unity, query, unsupported_result_type,
  thrift, http, url, delta, data_fusion, arrow_json, json, logger, io, client_error, internal,
  status_message,
}
use harborsql.Error.Outcome.{Result, ok, err, Returns, Returns-bind}
use harborsql.Thrift.Protocol.{t_bool, t_struct}
use harborsql.Thrift.Codec.Reader.{utf8_valid}
use harborsql.Thrift.Codec.Writer.{Write}
use harborsql.Thrift.Responses.Trees.{
  IsStruct, IsText, IsStruct-stop, IsStruct-field, IsValue-bool, IsValue-struct,
}
use harborsql.Thrift.Responses.WellFormed.{IsReply, IsReply-success, IsStruct-status}
use harborsql.Thrift.Responses.Replies.{IsText-none, IsText-some}
use harborsql.Results
use harborsql.Results.{
  new, count_rows, page_batches, page_start, row_page, requested_row_limit, non_negative,
  QueryResultPage,
}
use harborsql.Results.Batches.{RecordBatches}
use harborsql.Results.Rows.{length-rows_of}
use harborsql.Results.Paging.{page-rows, row_page-le}
use harborsql.Thrift.ResultSets.Encoders.{
  DataType, ColumnEncoder, write_result_set_metadata_response,
  write_result_set_metadata_response_with_encoders,
}
use harborsql.Thrift.ResultSets.Encoders.WellFormed.{
  AreNames, IsStruct-metadata, IsStruct-metadata_error,
}
use harborsql.Thrift.ResultSets.Encoders.Columns.{
  IsDataType, AreEncoders, column_encoders-AreEncoders,
}
use harborsql.Thrift.ResultSets.Values.{Formats}
use harborsql.Thrift.ResultSets.Rows.{ArrayRef}
use harborsql.Thrift.ResultSets.Rows.Written.{IsFilled, IsPage, IsWritten, write_row_set-IsWritten}
use harborsql.Thrift.ResultSets.Fetch

client_message-IsText : (e : HarborError) → IsText (Fetch.thrift_client_error_message e)
unfolding Fetch.thrift_client_error_message client_error status_message internal
client_message-IsText missing_bearer_token = omega arith
client_message-IsText (config _) = omega arith
client_message-IsText (unsupported_sql _) = omega arith
client_message-IsText (unity _) = omega arith
client_message-IsText (query _) = omega arith
client_message-IsText (unsupported_result_type _) = omega arith
client_message-IsText (thrift _) = omega arith
client_message-IsText (http _) = omega arith
client_message-IsText (url _) = omega arith
client_message-IsText (delta _) = omega arith
client_message-IsText (data_fusion _) = omega arith
client_message-IsText (arrow_json _) = omega arith
client_message-IsText (json _) = omega arith
client_message-IsText (logger _) = omega arith
client_message-IsText (io _) = omega arith

no_rows-IsStruct :
    (status : ℕ) (message : Bytes)
    → status < 2 ^ 32
    → IsText message
    → IsStruct 3 (Fetch.no_rows status message)
unfolding Fetch.no_rows
no_rows-IsStruct status message s t =
    IsStruct-field 3 t_struct 1 _ _ (omega arith)
      (IsValue-struct 3 _ (omega arith)
        (IsStruct-status 5 (omega arith) status (some message) s (IsText-some t)))
      (IsStruct-field 3 t_bool 2 _ _ (omega arith) (IsValue-bool 3 (omega arith) _)
        (IsStruct-stop 3))

metadata_or_error-IsStruct :
    (m : Result Write) → Returns (IsStruct 3) m → IsStruct 3 (Fetch.metadata_or_error m)
unfolding Fetch.metadata_or_error
metadata_or_error-IsStruct (ok w) s = s
metadata_or_error-IsStruct (err e) s =
    IsStruct-metadata_error 3 _ _ (omega arith) (omega arith) (client_message-IsText e)

message_or_default-IsText :
    (message : Option Bytes)
    → ((m : Bytes) → message ≡ some m → IsText m)
    → IsText (Fetch.message_or_default message)
unfolding Fetch.message_or_default
message_or_default-IsText none h = omega arith
message_or_default-IsText (some m) h = h m refl

metadata-Returns :
    (names : List Bytes) (types : List DataType) (status : ℕ)
    → AreNames names
    → All IsDataType types
    → status < 2 ^ 32
    → Returns (IsStruct 3) (write_result_set_metadata_response names types status)
unfolding write_result_set_metadata_response AreEncoders
metadata-Returns names types status n t s =
    Returns-bind (AreEncoders (length names)) _ _ _ (column_encoders-AreEncoders names types t)
      (λ es a. IsStruct-metadata 3 names es status (omega arith) a.0 n a.1 s)

get_metadata_responses :
    (seqid : ℕ) (names : List Bytes) (types : List DataType) (message : Option Bytes)
    → seqid < 2 ^ 32
    → AreNames names
    → All IsDataType types
    → ((m : Bytes) → message ≡ some m → IsText m)
    → IsReply
        (ascii "GetResultSetMetadata")
        seqid
        (Fetch.write_get_result_set_metadata_response seqid names types)
      × IsReply
          (ascii "GetResultSetMetadata")
          seqid
          (Fetch.write_get_result_set_metadata_invalid seqid)
      × IsReply
          (ascii "GetResultSetMetadata")
          seqid
          (Fetch.write_get_result_set_metadata_not_ready seqid message)
unfolding Fetch.write_get_result_set_metadata_response Fetch.write_get_result_set_metadata_invalid
    Fetch.write_get_result_set_metadata_not_ready utf8_valid
get_metadata_responses seqid names types message w n t m = (
  IsReply-success _ seqid _ (omega arith) refl w
      (metadata_or_error-IsStruct _ (metadata-Returns names types _ n t (omega arith))),
  IsReply-success _ seqid _ (omega arith) refl w
      (IsStruct-metadata_error 3 _ _ (omega arith) (omega arith) (omega arith)),
  IsReply-success _ seqid _ (omega arith) refl w (
      IsStruct-metadata_error 3 _ _ (omega arith) (omega arith)
        (message_or_default-IsText message m)),
)

fetch_refusals :
    (seqid : ℕ) (message : Option Bytes)
    → seqid < 2 ^ 32
    → ((m : Bytes) → message ≡ some m → IsText m)
    → IsReply (ascii "FetchResults") seqid (Fetch.write_fetch_results_invalid seqid)
      × IsReply (ascii "FetchResults") seqid (Fetch.write_fetch_results_not_ready seqid message)
unfolding Fetch.write_fetch_results_invalid Fetch.write_fetch_results_not_ready utf8_valid
fetch_refusals seqid message w m = (
  IsReply-success _ seqid _ (omega arith) refl w (no_rows-IsStruct _ _ (omega arith) (omega arith)),
  IsReply-success _ seqid _ (omega arith) refl w
      (no_rows-IsStruct _ _ (omega arith) (message_or_default-IsText message m)),
)

IsStruct-included :
    (include : Bool) (metadata : Write)
    → IsStruct 5 metadata
    → IsStruct 3 (Fetch.write_included include metadata)
unfolding Fetch.write_included
IsStruct-included true metadata s =
    IsStruct-field 3 t_struct 1281 _ _ (omega arith) (IsValue-struct 3 _ (omega arith) s)
      (IsStruct-stop 3)
IsStruct-included false metadata s = IsStruct-stop 3

-- No panic, and a reply.
pub Answers : ℕ → Option Bytes → Type 0
Answers seqid o = (bytes : Bytes) × (o ≡ some bytes) × IsReply (ascii "FetchResults") seqid bytes

module _ (f : Formats) (r : RecordBatches) (columns : r.RecordBatch → List ArrayRef) where
  fetched-IsWritten :
      (names : List Bytes) (es : List ColumnEncoder) (include : Bool) (page : QueryResultPage r)
      (o : Option (Result Write))
      → IsWritten (IsStruct 5) o
      → IsStruct 5 (write_result_set_metadata_response_with_encoders names es 0)
      → IsWritten (IsStruct 3) (Fetch.fetched f r columns names es include page o)
  unfolding IsWritten Fetch.fetched
  fetched-IsWritten names es include page o (err x, e, s) metadata =
      (err x, ap (Fetch.fetched f r columns names es include page) e, tt)
  fetched-IsWritten names es include page o (ok w, e, s) metadata = (
    ok _,
    ap (Fetch.fetched f r columns names es include page) e,
    IsStruct-field 3 t_struct 1 _ _ (omega arith)
        (IsValue-struct 3 _ (omega arith)
          (IsStruct-status 5 (omega arith) _ none (omega arith) IsText-none))
        (IsStruct-field 3 t_bool 2 _ _ (omega arith) (IsValue-bool 3 (omega arith) _) (
          IsStruct-field 3 t_struct 3 w _ (omega arith) (IsValue-struct 3 w (omega arith) s)
            (IsStruct-included include _ metadata))),
  )

  fetched_with-IsWritten :
      (names : List Bytes) (include : Bool) (page : QueryResultPage r)
      (m : Result (List ColumnEncoder))
      → IsPage f r columns page
      → AreNames names
      → Returns (AreEncoders (length names)) m
      → IsWritten (IsStruct 3) (Fetch.fetched_with f r columns names include page m)
  unfolding IsWritten Fetch.fetched_with AreEncoders
  fetched_with-IsWritten names include page (err x) p n s = (err x, refl, tt)
  fetched_with-IsWritten names include page (ok es) p n s =
      fetched-IsWritten names es include page _
        (write_row_set-IsWritten f r columns 5 names page es (omega arith) p n s.0)
        (IsStruct-metadata 5 names es _ (omega arith) s.0 n s.1 (omega arith))

  response-Answers :
      (seqid : ℕ) (o : Option (Result Write))
      → seqid < 2 ^ 32
      → IsWritten (IsStruct 3) o
      → Answers seqid (Fetch.response_of f r columns seqid o)
  unfolding IsWritten Fetch.response_of Answers utf8_valid
  response-Answers seqid o w (ok s, e, h) = (
    _,
    ap (Fetch.response_of f r columns seqid) e,
    IsReply-success _ seqid s (omega arith) refl w h,
  )
  response-Answers seqid o w (err x, e, h) = (
    _,
    ap (Fetch.response_of f r columns seqid) e,
    IsReply-success _ seqid _ (omega arith) refl w
        (no_rows-IsStruct _ _ (omega arith) (client_message-IsText x)),
  )

  -- A window of a batch with a slot in each column for each row has them too.
  abbrev pub SlicesAreFilled : Type 0
  SlicesAreFilled =
      (b : r.RecordBatch) (offset n : ℕ)
      → offset + n ≤ r.num_rows b
      → IsFilled f r columns b
      → IsFilled f r columns (r.slice b offset n)

  page_batches-IsFilled :
      SlicesAreFilled
      → (bs : List r.RecordBatch) (skip take : ℕ) → All (IsFilled f r columns) bs
      → All (IsFilled f r columns) (page_batches r bs skip take)
  unfolding page_batches
  page_batches-IsFilled h [] skip take s = tt
  page_batches-IsFilled h (b ∷ bs) skip take s = elim (Bool-cases (take == 0)) [
    | inl none_left ↦ rw none_left tt
    | inr some_left ↦ rw some_left (elim (Bool-cases (leb (r.num_rows b) skip)) [
      | inl past ↦ rw past (page_batches-IsFilled h bs (skip - r.num_rows b) take s.1)
      | inr within ↦ rw within (
        h b skip (min (r.num_rows b - skip) take) (grind (arith, within)) s.0,
        page_batches-IsFilled h bs 0 (take - min (r.num_rows b - skip) take) s.1,
      )
    ])
  ]

  -- The batches of a page of a result whose batches are filled, and the numbers of the page.
  row_page-IsPage :
      (bs : List r.RecordBatch) (offset : ℕ) (max_rows : Option ℕ)
      → SlicesAreFilled
      → count_rows r bs < 2 ^ 64
      → All (IsFilled f r columns) bs
      → IsPage f r columns (row_page r (new r bs) offset max_rows)
  unfolding IsPage row_page Results.page page_start new
  row_page-IsPage bs offset max_rows h small s = (
    sym (length-rows_of r _) ∙ (page-rows r bs small offset (requested_row_limit max_rows)).1,
    omega (arith, row_page-le r (new r bs) offset max_rows),
    omega (arith, small),
    page_batches-IsFilled h bs _ _ s,
  )

  fetch_response :
      (seqid : ℕ) (names : List Bytes) (types : List DataType) (bs : List r.RecordBatch)
      (include : Bool) (offset : ℕ) (max_rows : Option ℕ)
      → seqid < 2 ^ 32
      → AreNames names
      → All IsDataType types
      → SlicesAreFilled
      → count_rows r bs < 2 ^ 64
      → All (IsFilled f r columns) bs
      → Answers seqid (
          Fetch.write_fetch_results_response f r columns seqid names types
            (new r bs)
            include
            offset
            max_rows)
  unfolding Fetch.write_fetch_results_response Fetch.write_fetch_results_response_struct
  fetch_response seqid names types bs include offset max_rows w n t h small s =
      response-Answers seqid _ w (
        fetched_with-IsWritten names include _ _ (row_page-IsPage bs offset max_rows h small s) n
          (column_encoders-AreEncoders names types t))

  -- The responses to FetchResults and GetResultSetMetadata never panic, and each is a reply of the protocol:
  -- decoding it gives the name of the method and the sequence number back, and its payload is read as one
  -- struct that fills it. The sequence number has 32 bits; the names of the columns and a message are shorter
  -- than 2 ^ 31 bytes, and there are at most 16 384 columns; precisions and scales have 32 bits; the result
  -- has fewer than 2 ^ 64 rows, and its batches have in each column a slot for each row, whose text or bytes
  -- are shorter than 2 ^ 31, as have the slices of such batches. An error in the types of the columns or in a
  -- value is answered as well.
  pub result_sets_are_replies :
      (seqid : ℕ) (names : List Bytes) (types : List DataType) (bs : List r.RecordBatch)
      (include : Bool) (offset : ℕ) (max_rows : Option ℕ) (message : Option Bytes)
      → seqid < 2 ^ 32
      → AreNames names
      → All IsDataType types
      → SlicesAreFilled
      → count_rows r bs < 2 ^ 64
      → All (IsFilled f r columns) bs
      → ((m : Bytes) → message ≡ some m → IsText m)
      → Answers seqid (
          Fetch.write_fetch_results_response f r columns seqid names types
            (new r bs)
            include
            offset
            max_rows)
        × (IsReply (ascii "FetchResults") seqid (Fetch.write_fetch_results_invalid seqid)
            × IsReply
                (ascii "FetchResults")
                seqid
                (Fetch.write_fetch_results_not_ready seqid message))
        × (IsReply
              (ascii "GetResultSetMetadata")
              seqid
              (Fetch.write_get_result_set_metadata_response seqid names types)
            × IsReply
                (ascii "GetResultSetMetadata")
                seqid
                (Fetch.write_get_result_set_metadata_invalid seqid)
            × IsReply
                (ascii "GetResultSetMetadata")
                seqid
                (Fetch.write_get_result_set_metadata_not_ready seqid message))
  result_sets_are_replies seqid names types bs include offset max_rows message w n t h small s m = (
    fetch_response seqid names types bs include offset max_rows w n t h small s,
    fetch_refusals seqid message w m,
    get_metadata_responses seqid names types message w n t m,
  )
