-- ===== src/Testing/Server/Results.antt =====
-- The body that `FakeSnowflake` gives of a result, as the client reads it, and its handles.
use snowflake_sql_api.Common.{
  ℕ, suc, Text, codes, Option, some, List, [], ◌∷◌, length, ok, ok-injective, >>=-eq-ok, ◌≡◌, refl,
  sym, ap, ◌∙◌, arith, Lacks, text_eq,
}
use snowflake_sql_api.Common.Decimal.{decimal, decimal-IsDigit}
use snowflake_sql_api.Common.Parsing.{digits-Lacks}
use snowflake_sql_api.Common.Dict.{find}
use snowflake_sql_api.Errors.{Value, str, Fields, get_or, Exc}
use snowflake_sql_api.Bindings.{PyValue}
use snowflake_sql_api.Transport.{statement_handle}
use snowflake_sql_api.Types.{Reading}
use snowflake_sql_api.Client.Payload.{Context, build_payload, when_params}
use snowflake_sql_api.Client.Results.{columns_of, columns_from}
use snowflake_sql_api.Testing.Bodies.{ok_body}
use snowflake_sql_api.Testing.Registry.{Registration}
use snowflake_sql_api.Testing.State.{State, FakeSnowflake, handle_name}
use snowflake_sql_api.Testing.Server.{Codec, result_body}
use snowflake_sql_api.Testing.Server.Served.{answer_with}
use snowflake_sql_api.Testing.Server.Fetching.{to_list-to_items}

-- The body that the fake gives of a result under a handle.
pub IsBody : Registration → Text → Fields → Type 0
unfolding ok_body
IsBody reg name body =
    (c : List Value) × (cs : List (List Value)) × (reg.chunks ≡ c ∷ cs)
    × (ok_body reg.row_type c (suc (length cs)) name reg.stats ≡ ok body)

pub IsBody-found :
    (reg : Registration) (name : Text) (c : List Value) (cs : List (List Value))
    → reg.chunks ≡ c ∷ cs
    → (body : Fields) × IsBody reg name body
unfolding IsBody ok_body
IsBody-found reg name c cs split = (_, (c, cs, split, refl))

pub result_body-IsBody :
    (codec : Codec) (f : FakeSnowflake) (name : Text) (state : State) (body : Fields)
    → find name f.states ≡ some state
    → IsBody state.reg name body
    → result_body codec name f ≡ ok body
unfolding result_body IsBody
result_body-IsBody codec f name state body found (c, cs, split, given) = rw found (rw split given)

pub columns_from-IsBody :
    (py : Reading) (listed : List Value → Text) (reg : Registration) (name : Text) (body : Fields)
    → IsBody reg name body
    → columns_from py listed body ≡ columns_of py listed reg.row_type
unfolding columns_from IsBody ok_body get_or text_eq
columns_from-IsBody py listed reg name body (c, cs, split, given) =
    ap (columns_from py listed) (sym (ok-injective given))
    ∙ ap (columns_of py listed) (to_list-to_items reg.row_type)

pub statement_handle-IsBody :
    (reg : Registration) (n : ℕ) (body : Fields) (attempts : Option ℕ)
    → IsBody reg (handle_name n) body
    → statement_handle (answer_with attempts 200 body) ≡ str (handle_name n)
unfolding statement_handle IsBody ok_body get_or text_eq
statement_handle-IsBody reg n body attempts (c, cs, split, given) =
    ap (λ b. statement_handle (answer_with attempts 200 b)) (sym (ok-injective given))

pub handle_name-Lacks : (n : ℕ) → Lacks 47 (handle_name n)
handle_name-Lacks n = (
  omega arith,
  (
    omega arith,
    (
      omega arith,
      (omega arith, (omega arith, digits-Lacks 47 (decimal n) (omega arith) (decimal-IsDigit n))),
    ),
  ),
)

-- A payload states the statement that it was built from.
pub build_payload-statement :
    (context : Context) (sql : Text) (params : List PyValue) {payload : Fields}
    → build_payload context sql params ≡ ok payload
    → get_or (codes "statement") payload (str []) ≡ str sql
unfolding build_payload get_or text_eq
build_payload-statement context sql params built =
    let (bindings, some_params, whole) = >>=-eq-ok (when_params params) _ built in
    ap (λ fs. get_or (codes "statement") fs (str [])) (sym (ok-injective {E = Exc} whole))
