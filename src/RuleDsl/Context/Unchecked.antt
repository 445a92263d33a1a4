-- ===== src/RuleDsl/Context/Unchecked.antt =====
-- The check does not look into an expression that is an operand of a comparison.
use bbz_platform.Prelude.{String, true, ◌≡◌, ◌≢◌, ok, arith, eq_iff, err, lookup, none}
use bbz_platform.RuleDsl.Value.{Value, bool, str, list, object, nil, cons, end, field}
use bbz_platform.RuleDsl.Parse.{parse, unknown_field}
use bbz_platform.RuleDsl.Context.{ContextSchema, validate, field_type, check}

-- `{"op": "exists", "args": [{"field": name}]}`
abbrev pub exists_tree : String → Value
exists_tree name = object (
    field "op" (str "exists")
      (field "args" (list (cons (object (field "field" (str name) end)) nil)) end))

-- `{"op": "eq", "args": [{"op": "exists", …}, true]}`
abbrev pub hidden_tree : String → Value
hidden_tree name = object (
    field "op" (str "eq")
      (field "args" (list (cons (exists_tree name) (cons (bool true) nil))) end))

-- Under `eq`, a reference to a field that the schema does not have passes the check, for every
-- schema and every name that is not empty, though the same reference alone is refused.
pub validate_hidden :
    (schema : ContextSchema) (name : String)
    → name ≢ ""
    → lookup name schema.fields ≡ none
    → (validate schema (hidden_tree name) ≡ ok tt)
      × (validate schema (exists_tree name) ≡ err (unknown_field name))
unfolding validate parse check field_type
validate_hidden schema name named missing =
    (ground (arith, eq_iff name ""), ground (arith, eq_iff name ""))
