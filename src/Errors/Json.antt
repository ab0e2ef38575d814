-- ===== src/Errors/Json.antt =====
-- JSON values as Python sees them after `response.json()`. A float is kept by what the library
-- reads of it: whether it is zero, and its `int()`, which is missing when it is not finite.
use snowflake_sql_api.Common.{
  zero, suc, Text, Bool, true, false, not, Option, List, [], ◌∷◌, if◌then◌else◌, text_eq,
}
use snowflake_sql_api.Common.Int.{ℤ, pos, negsuc}

mutual
  pub data Value : Type 0 where
    null : Value
    bool : Bool → Value
    int : ℤ → Value
    float : Bool → Option ℤ → Value
    str : Text → Value
    arr : Items → Value
    obj : Fields → Value

  pub data Items : Type 0 where
    nil : Items
    item : Value → Items → Items

  pub data Fields : Type 0 where
    end : Fields
    field : Text → Value → Fields → Fields

-- `bool(v)`
abbrev pub truthy : Value → Bool
truthy null = false
truthy (bool b) = b
truthy (int (pos zero)) = false
truthy (int (pos (suc n))) = true
truthy (int (negsuc n)) = true
truthy (float is_zero n) = not is_zero
truthy (str []) = false
truthy (str (c ∷ s)) = true
truthy (arr nil) = false
truthy (arr (item v vs)) = true
truthy (obj end) = false
truthy (obj (field k v fs)) = true

-- `a or b`
abbrev pub or_else : Value → Value → Value
or_else a b = if truthy a then a else b

-- `v is None`
abbrev pub is_none : Value → Bool
is_none null = true
is_none _ = false

-- `d.get(key, default)`
unfoldable pub get_or : Text → Fields → Value → Value
get_or k end d = d
get_or k (field j v fs) d = if text_eq j k then v else get_or k fs d

-- `d.get(key)`
abbrev pub get : Text → Fields → Value
get k fs = get_or k fs null

-- `key in d`
unfoldable pub has_key : Text → Fields → Bool
has_key k end = false
has_key k (field j v fs) = if text_eq j k then true else has_key k fs

-- `list(items)`
unfoldable pub to_list : Items → List Value
to_list nil = []
to_list (item v vs) = v ∷ to_list vs
