-- ===== src/Bindings/Tests.antt =====
-- Runs of the bindings, and the theorems at concrete parameters.
use snowflake_sql_api.Common.{◌+◌, codes, true, some, [], ◌∷◌, ok, ◌≡◌, refl}
use snowflake_sql_api.Common.Decimal.{decimal, decimal_int}
use snowflake_sql_api.Common.Int.{pos, negsuc, ◌*ℤ◌, ◌+ℤ◌, ◌-ℤ◌}
use snowflake_sql_api.Bindings.{BindingValue, aware, int, bool, datetime, bind_one, to_bindings}
use snowflake_sql_api.Bindings.Keys.{find_binding, find_binding-to_bindings}

-- The example of the module's documentation.
documented_example :
    bind_one (
      datetime (
        aware
          (record { days = pos 18705; seconds = 28419; microseconds = 0 })
          (some (negsuc 28799999999))))
    ≡ ok (record { kind = codes "TIMESTAMP_TZ"; value = some (codes "1616140419000000000 960") })
unfolding bind_one decimal_int ◌*ℤ◌ ◌+ℤ◌ ◌-ℤ◌
documented_example = refl

two_bindings :
    to_bindings (int (pos 7) ∷ bool true ∷ [])
    ≡ ok (
        (codes "1", record { kind = codes "FIXED"; value = some (codes "7") })
        ∷ (codes "2", record { kind = codes "BOOLEAN"; value = some (codes "true") })
        ∷ [])
unfolding to_bindings bind_one decimal_int
two_bindings = refl

find_binding-to_bindings_example :
    (b : BindingValue) × (bind_one (bool true) ≡ ok b)
    × (find_binding (decimal (1 + 1)) (
          (codes "1", record { kind = codes "FIXED"; value = some (codes "7") })
          ∷ (codes "2", record { kind = codes "BOOLEAN"; value = some (codes "true") })
          ∷ [])
        ≡ some b)
find_binding-to_bindings_example =
    find_binding-to_bindings (int (pos 7) ∷ bool true ∷ []) 1 two_bindings refl
