-- ===== src/Client/Payload.antt =====
-- `_validate_statement_timeout` and `_build_payload` of _client_base.py.
use snowflake_sql_api.Common.{
  ℕ, suc, Text, codes, Option, none, some, List, [], ◌∷◌, ◌++◌, Result, ok, err, ◌>>=◌, text_eq,
  if◌then◌else◌,
}
use snowflake_sql_api.Common.Int.{pos}
use snowflake_sql_api.Errors
use snowflake_sql_api.Errors.{
  Value, null, str, obj, Fields, end, field, get_or, get, Exc, config_error,
}
use snowflake_sql_api.Bindings.{PyValue, int, BindingValue, to_bindings}

-- The timeout of a client: `None`, or what `isinstance` and `<= 0` let pass; `shown` is the text
-- that the message gives of the value.
unfoldable pub validate_statement_timeout : Text → Option PyValue → Result Exc (Option ℕ)
validate_statement_timeout shown none = ok none
validate_statement_timeout shown (some (int (pos (suc n)))) = ok (some (suc n))
validate_statement_timeout shown (some _) =
    err (
      config_error (codes "statement_timeout must be a positive integer of seconds, got " ++ shown))

-- The session context of a client; an empty text counts as none.
pub record Context : Type 0 where
  pub statement_timeout : Option ℕ
  pub database : Option Text
  pub schema : Option Text
  pub warehouse : Option Text
  pub role : Option Text
  pub timezone : Option Text
  pub parameters : Fields

-- `if value: payload[key] = value`, in front of the keys that are set later
unfoldable pub when_set : Text → Option Text → Fields → Fields
when_set k none later = later
when_set k (some []) later = later
when_set k (some (c ∷ s)) later = field k (str (c ∷ s)) later

abbrev when_timeout : Option ℕ → Fields → Fields
when_timeout none later = later
when_timeout (some n) later = field (codes "timeout") (Errors.int (pos n)) later

-- `d[key] = value`
unfoldable pub set_field : Text → Value → Fields → Fields
set_field k v end = field k v end
set_field k v (field j w fs) = if text_eq j k then field j v fs else field j w (set_field k v fs)

unfoldable pub with_timezone : Option Text → Fields → Fields
unfolding set_field
with_timezone none fs = fs
with_timezone (some []) fs = fs
with_timezone (some (c ∷ s)) fs = set_field (codes "TIMEZONE") (str (c ∷ s)) fs

abbrev when_parameters : Fields → Fields → Fields
when_parameters end later = later
when_parameters fs later = field (codes "parameters") (obj fs) later

abbrev value_or_null : Option Text → Value
value_or_null none = null
value_or_null (some s) = str s

unfoldable pub binding_fields : List (Text × BindingValue) → Fields
binding_fields [] = end
binding_fields ((k, b) ∷ bs) =
    field k
      (obj (field (codes "type") (str b.kind) (field (codes "value") (value_or_null b.value) end)))
      (binding_fields bs)

-- `if params: payload["bindings"] = to_bindings(params)`; `None` is the empty list here.
unfoldable pub when_params : List PyValue → Result Exc Fields
unfolding binding_fields
when_params [] = ok end
when_params (v ∷ vs) = do
  bindings ← to_bindings (v ∷ vs)
  ok (field (codes "bindings") (obj (binding_fields bindings)) end)

-- `_build_payload`
unfoldable pub build_payload : Context → Text → List PyValue → Result Exc Fields
unfolding when_set with_timezone when_params
build_payload c sql params = do
  bindings ← when_params params
  ok (
      field (codes "statement") (str sql) (
        when_timeout c.statement_timeout (
          when_set (codes "database") c.database (
            when_set (codes "schema") c.schema (
              when_set (codes "warehouse") c.warehouse (
                when_set (codes "role") c.role
                  (when_parameters (with_timezone c.timezone c.parameters) bindings)))))))
