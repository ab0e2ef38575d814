-- ===== src/Pagination/Tests.antt =====
-- A result of two partitions.
use snowflake_sql_api.Common.{
  ℕ, suc, false, none, ◌-◌, codes, List, [], ◌∷◌, ◌++◌, ok, ◌≡◌, refl, text_eq, some, arith, Result,
}
use snowflake_sql_api.Errors.{
  Value, Exc, str, null, arr, obj, item, nil, Fields, end, field, get_or, to_list,
}
use snowflake_sql_api.Transport.{interpret, json_body}
use snowflake_sql_api.Transport.Tests.{answer}
use snowflake_sql_api.Transport.Send.{Environment, responded}
use snowflake_sql_api.Common.Int.{pos}
use snowflake_sql_api.Common.Parsing.{parse_int}
use snowflake_sql_api.Bindings.{int}
use snowflake_sql_api.Types.Columns.{Row, coerce_rows}
use snowflake_sql_api.Types.Tests.{reading, columns}
use snowflake_sql_api.Pagination.Streaming.{Source, iter_result_rows, drain}
use snowflake_sql_api.Pagination.Agreement.{drain-fetch_all_partitions}
use snowflake_sql_api.Pagination.Exhaustion.{drain-ends}
use snowflake_sql_api.Pagination.{
  fetch_all_partitions, Pages, partition_count, body_rows, fetch_all_partitions-Pages,
}

abbrev rows_body : Fields
rows_body = field (codes "data") (arr (item null nil)) (
    field (codes "resultSetMetaData")
      (obj (field (codes "partitionInfo") (arr (item null (item null nil))) end)) end)

-- The service gives the same body for each partition.
abbrev paged : Environment
paged = record {
  World = ℕ;
  headers = λ w. (none, w);
  request = λ r w. (responded (answer 200 (obj rows_body)), suc w);
  sleep = λ n r w. (none, w);
  max_attempts = 1;
  should_retry_status = λ n. false;
}

two_partitions : fetch_all_partitions paged (codes "h") rows_body 0 ≡ (ok (null ∷ null ∷ []), 1)
unfolding fetch_all_partitions get_or text_eq to_list interpret json_body
two_partitions = refl

fetch_all_partitions-Pages_example :
    (rows new : List Value) × (count : ℕ) × (body_rows rows_body ≡ ok rows)
    × (partition_count rows_body ≡ ok count)
    × (null ∷ null ∷ [] ≡ rows ++ new)
    × Pages paged (codes "h") (count - 1) 1 0 new
fetch_all_partitions-Pages_example =
    fetch_all_partitions-Pages paged (codes "h") rows_body 0 two_partitions

-- A result of two partitions, each with a row of one number.
abbrev number_body : Fields
number_body = field (codes "data") (arr (item (arr (item (str (codes "42")) nil)) nil)) (
    field (codes "resultSetMetaData")
      (obj (field (codes "partitionInfo") (arr (item null (item null nil))) end)) end)

abbrev pub numbers : Environment
numbers = record {
  World = ℕ;
  headers = λ w. (none, w);
  request = λ r w. (responded (answer 200 (obj number_body)), suc w);
  sleep = λ n r w. (none, w);
  max_attempts = 1;
  should_retry_status = λ n. false;
}

abbrev pub source : Source
source = record { left = 1; index = 1; data_rows = arr (item (str (codes "42")) nil) ∷ [] }

opened : iter_result_rows numbers (codes "h") reading columns number_body ≡ ok source
unfolding iter_result_rows get_or text_eq to_list
opened = refl

abbrev pub number_row : Row
number_row = (str (codes "n"), int (pos 42)) ∷ []

pub drained :
    drain numbers (codes "h") reading columns 3 source 0
    ≡ some (ok (number_row ∷ number_row ∷ []), 1)
unfolding drain get_or text_eq to_list interpret json_body parse_int
drained = refl

drain-fetch_all_partitions_example :
    (raws : List Value) × (fetch_all_partitions numbers (codes "h") number_body 0 ≡ (ok raws, 1))
    × (coerce_rows reading columns raws ≡ ok (number_row ∷ number_row ∷ []))
drain-fetch_all_partitions_example =
    drain-fetch_all_partitions numbers (codes "h") reading columns 3 number_body source 0 opened
      drained

abbrev number : Value
number = arr (item (str (codes "42")) nil)

fetched : fetch_all_partitions numbers (codes "h") number_body 0 ≡ (ok (number ∷ number ∷ []), 1)
unfolding fetch_all_partitions get_or text_eq to_list interpret json_body
fetched = refl

drain-ends_example :
    (answer : Result Exc (List Row) × ℕ) × (drain numbers (codes "h") reading columns 3 source 0
      ≡ some answer)
drain-ends_example =
    drain-ends numbers (codes "h") reading columns number_body source 0 3 fetched opened
      (omega arith)
