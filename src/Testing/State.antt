-- ===== src/Testing/State.antt =====
-- The state of `FakeSnowflake` of testing.py: the registrations, their lookup and the handles.
use snowflake_sql_api.Common.{
  ℕ, ◌+◌, Text, codes, Bool, Option, none, some, List, [], ◌∷◌, ◌++◌, Result, ok, err, ◌>>=◌,
  if◌then◌else◌,
}
use snowflake_sql_api.Common.Int.{ℤ}
use snowflake_sql_api.Common.Decimal.{decimal, decimal_int}
use snowflake_sql_api.Common.Dict.{find, insert}
use snowflake_sql_api.Errors.{Value, str, arr, obj, Fields, Exc, raised, plain, foreign}
use snowflake_sql_api.Transport.Send.{Request}
use snowflake_sql_api.Testing.Wire.{Writing}
use snowflake_sql_api.Testing.Bodies.{array}
use snowflake_sql_api.Testing.Registry.{RowInput, ColumnSpec, ErrorSpec, Registration, build}

-- `_State`
pub record State : Type 0 where
  pub reg : Registration
  pub remaining_polls : ℕ

-- A predicate is called with the statement, a text where the request is one of the library's.
pub record FakeSnowflake : Type 0 where
  pub exact : List (Text × Registration)
  pub predicates : List ((Value → Result Exc Bool) × Registration)
  pub states : List (Text × State)
  pub counter : ℕ
  pub requests : List Request

abbrev pub empty : FakeSnowflake
empty = record { exact = []; predicates = []; states = []; counter = 0; requests = [] }

abbrev pub registered : Text → FakeSnowflake → Registration → FakeSnowflake
registered sql f reg = record f { exact = insert sql reg f.exact }

unfoldable pub register :
    Writing
    → Text
    → List RowInput
    → Option (List ColumnSpec)
    → ℕ
    → ℕ
    → Option Fields
    → FakeSnowflake
    → Result Exc FakeSnowflake
unfolding build
register py sql rows columns partitions polls stats f =
    build py rows columns partitions polls stats >>= λ reg. ok (registered sql f reg)

unfoldable pub register_match :
    Writing
    → (Value → Result Exc Bool)
    → List RowInput
    → Option (List ColumnSpec)
    → ℕ
    → ℕ
    → Option Fields
    → FakeSnowflake
    → Result Exc FakeSnowflake
unfolding build
register_match py predicate rows columns partitions polls stats f =
    build py rows columns partitions polls stats >>= λ reg.
    ok (record f { predicates = f.predicates ++ (predicate, reg) ∷ [] })

unfoldable pub register_dml : Text → ℤ → FakeSnowflake → FakeSnowflake
unfolding decimal_int
register_dml sql rowcount f = registered sql f (record {
  row_type = [];
  chunks = (array (str (decimal_int rowcount) ∷ []) ∷ []) ∷ [];
  polls_before_ready = 0;
  stats = none;
  error = none;
})

unfoldable pub register_error : Text → ErrorSpec → FakeSnowflake → FakeSnowflake
register_error sql error f = registered sql f (record {
  row_type = [];
  chunks = [] ∷ [];
  polls_before_ready = 0;
  stats = none;
  error = some error;
})

abbrev raises {ℓ} : {A : Type ℓ} → Text → Result Exc A
raises m = err (raised (plain foreign m))

-- The predicates in the order of their registration.
unfoldable pub first_match :
    Value → List ((Value → Result Exc Bool) × Registration) → Result Exc (Option Registration)
first_match sql [] = ok none
first_match sql ((predicate, reg) ∷ rest) =
    let later = first_match sql rest in
    predicate sql >>= λ matches. if matches then ok (some reg) else later

abbrev or_match :
    Value
    → List ((Value → Result Exc Bool) × Registration)
    → Option Registration
    → Result Exc (Option Registration)
or_match sql predicates (some reg) = ok (some reg)
or_match sql predicates none = first_match sql predicates

-- `_lookup`; an array or an object is no key of a dict.
unfoldable pub lookup : Value → FakeSnowflake → Result Exc (Option Registration)
unfolding first_match
lookup (str sql) f = or_match (str sql) f.predicates (find sql f.exact)
lookup (arr items) f = raises (codes "TypeError")
lookup (obj fs) f = raises (codes "TypeError")
lookup sql f = first_match sql f.predicates

abbrev pub handle_name : ℕ → Text
handle_name n = codes "stmt-" ++ decimal n

-- `_next_handle`
unfoldable pub next_handle : FakeSnowflake → Text × FakeSnowflake
next_handle f = (handle_name (f.counter + 1), record f { counter = f.counter + 1 })
