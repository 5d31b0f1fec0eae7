-- ===== src/Thrift/ResultSets/Examples.antt =====
-- The theorem on the responses with result sets of src/thrift.rs at a concrete result.
use harborsql.Base.{
  ℕ, suc, ◌≡◌, refl, ap, true, some, inr, List, [], ◌∷◌, Bytes, ascii, length, All, arith,
}
use harborsql.Thrift.Responses.Trees.{IsText}
use harborsql.Thrift.Responses.WellFormed.{IsReply}
use harborsql.Thrift.Service.Access.{some_inj}
use harborsql.Results.{new, count_rows}
use harborsql.Results.Batches.{plain_batches}
use harborsql.Thrift.ResultSets.Encoders.{DataType, int64, utf8}
use harborsql.Thrift.ResultSets.Encoders.WellFormed.{AreNames}
use harborsql.Thrift.ResultSets.Values.{
  Slot, number, text, Formats, arrow_value_to_binary, text_of, unexpected_value_type,
}
use harborsql.Thrift.ResultSets.Values.Display.{arrow_value_to_string}
use harborsql.Thrift.ResultSets.Rows.{ArrayRef}
use harborsql.Thrift.ResultSets.Rows.Items.{IsShort}
use harborsql.Thrift.ResultSets.Rows.Written.{IsFilled}
use harborsql.Thrift.ResultSets.Fetch.{
  write_fetch_results_response, write_fetch_results_invalid, write_fetch_results_not_ready,
  write_get_result_set_metadata_response, write_get_result_set_metadata_invalid,
  write_get_result_set_metadata_not_ready,
}
use harborsql.Thrift.ResultSets.Fetch.Replies.{Answers, result_sets_are_replies}

abbrev formats : Formats
formats = record {
  array_value_to_string = λ type slot. inr (ascii "v");
  json_string = λ t. t;
  json_bytes = λ t. t;
  show_i32 = λ n. ascii "n";
  show_i64 = λ n. ascii "n";
  show_f64 = λ n. ascii "n";
  date_text = λ type n. some (ascii "d");
  timestamp_text = λ unit n. some (ascii "t");
  f64_of_f32 = λ n. n;
}

-- A column of the numbers of the batch and one of texts.
abbrev number_slots : List ℕ → List Slot
number_slots [] = []
number_slots (n ∷ ns) = number n ∷ number_slots ns

abbrev text_slots : List ℕ → List Slot
text_slots [] = []
text_slots (n ∷ ns) = text (ascii "row") ∷ text_slots ns

abbrev two_columns : List ℕ → List ArrayRef
two_columns b =
    record { data_type = int64; slots = number_slots b }
    ∷ record { data_type = utf8; slots = text_slots b }
    ∷ []

length-number_slots : (b : List ℕ) → length (number_slots b) ≡ length b
length-number_slots [] = refl
length-number_slots (n ∷ ns) = ap suc (length-number_slots ns)

length-text_slots : (b : List ℕ) → length (text_slots b) ≡ length b
length-text_slots [] = refl
length-text_slots (n ∷ ns) = ap suc (length-text_slots ns)

number_slots-IsShort : (b : List ℕ) → All (IsShort formats int64) (number_slots b)
unfolding IsShort arrow_value_to_string arrow_value_to_binary text_of unexpected_value_type
number_slots-IsShort [] = tt
number_slots-IsShort (n ∷ ns) = ((tt, tt), number_slots-IsShort ns)

text_slots-IsShort : (b : List ℕ) → All (IsShort formats utf8) (text_slots b)
unfolding IsShort arrow_value_to_string arrow_value_to_binary text_of unexpected_value_type
text_slots-IsShort [] = tt
text_slots-IsShort (n ∷ ns) = ((omega arith, tt), text_slots-IsShort ns)

two_columns-IsFilled : (b : List ℕ) → IsFilled formats plain_batches two_columns b
unfolding IsFilled
two_columns-IsFilled b = (
  (length-number_slots b, number_slots-IsShort b),
  ((length-text_slots b, text_slots-IsShort b), tt),
)

abbrev two_names : List Bytes
two_names = ascii "id" ∷ ascii "name" ∷ []

abbrev two_types : List DataType
two_types = int64 ∷ utf8 ∷ []

two_names-AreNames : AreNames two_names
unfolding AreNames
two_names-AreNames = ((omega arith, (omega arith, tt)), omega arith)

abbrev batches : List (List ℕ)
batches = (4 ∷ 5 ∷ 6 ∷ []) ∷ (7 ∷ []) ∷ []

short_message : (m : Bytes) → some (ascii "wait") ≡ some m → IsText m
short_message m h = rw (← some_inj _ _ h) (omega arith)

result_sets_are_replies_example :
    Answers 5 (
      write_fetch_results_response formats plain_batches two_columns 5 two_names two_types
        (new plain_batches batches)
        true
        1
        (some 2))
    × (IsReply (ascii "FetchResults") 5 (write_fetch_results_invalid 5)
        × IsReply (ascii "FetchResults") 5 (write_fetch_results_not_ready 5 (some (ascii "wait"))))
    × (IsReply
          (ascii "GetResultSetMetadata")
          5
          (write_get_result_set_metadata_response 5 two_names two_types)
        × IsReply (ascii "GetResultSetMetadata") 5 (write_get_result_set_metadata_invalid 5)
        × IsReply
            (ascii "GetResultSetMetadata")
            5
            (write_get_result_set_metadata_not_ready 5 (some (ascii "wait"))))
unfolding count_rows
result_sets_are_replies_example =
    result_sets_are_replies formats plain_batches two_columns 5 two_names two_types batches true 1
      (some 2) (some (ascii "wait")) (omega arith) two_names-AreNames (tt, (tt, tt))
      (λ b offset n h s. two_columns-IsFilled _) (omega arith)
      (two_columns-IsFilled _, (two_columns-IsFilled _, tt)) short_message
