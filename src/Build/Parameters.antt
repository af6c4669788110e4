-- ===== src/Build/Parameters.antt =====
-- parameter.go: the type Parameter and its translations.
use theo_forge.Prelude.{
  Text, Option, none, some, List, [], is_empty, Result, ok, err, errorf, fail_if, ◌>>◌,
}
use theo_forge.Model.Basic.{ValueFrom, ParameterModel, parameter_named}

pub record Parameter : Type 0 where
  pub name : Text
  pub description : Text
  pub enum : List Text
  pub global_name : Text
  pub value : Option Text
  pub default : Option Text
  pub value_from : Option ValueFrom

unfoldable pub string : Parameter → Result Text
string p = elim p.value [
  | none ↦ err (errorf "cannot represent Parameter as string: value is not set" [])
  | some v ↦ ok v
]

unfoldable pub with_name : Parameter → Text → Parameter
with_name p name = record p { name = name }

validate_name : Parameter → Result (Unit {0})
validate_name p = fail_if (is_empty p.name) (errorf "name cannot be empty when used" [])

unfoldable pub as_input : Parameter → Result ParameterModel
unfolding validate_name
as_input p = do
  validate_name p
  ok (record {
    name = p.name;
    value = p.value;
    default = p.default;
    description = p.description;
    enum = p.enum;
    global_name = p.global_name;
    value_from = p.value_from;
  })

-- The default is left out.
unfoldable pub as_argument : Parameter → Result ParameterModel
unfolding validate_name
as_argument p = do
  validate_name p
  ok (record (parameter_named p.name) { value = p.value; value_from = p.value_from })

unfoldable pub as_output : Parameter → Result ParameterModel
unfolding validate_name
as_output p = do
  validate_name p
  ok (record (parameter_named p.name) {
    value = p.value;
    value_from = p.value_from;
    global_name = p.global_name;
  })
