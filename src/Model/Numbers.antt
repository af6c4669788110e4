-- ===== src/Model/Numbers.antt =====
-- model/int_or_string.go: a number or a string, as text and as JSON.
use theo_forge.Prelude.{
  true, false, Text, [], ◌∷◌, eqb, if◌then◌else◌, Result, ok, err, Error, errorf, wrap,
}
use theo_forge.Int.{ℤ, pos, decimal_int}
use theo_forge.Model.Containers.{IntOrString}

unfoldable pub int_or_string_from_int : ℤ → IntOrString
int_or_string_from_int n = record { is_string = false; int_val = n; str_val = [] }

unfoldable pub int_or_string_from_string : Text → IntOrString
int_or_string_from_string s = record { is_string = true; int_val = pos 0; str_val = s }

unfoldable pub string : IntOrString → Text
string i = if i.is_string then i.str_val else decimal_int i.int_val

-- What `encoding/json` does with a string, and how it reads an int32.
pub record Json : Type 0 where
  pub marshal_string : Text → Result Text
  pub unmarshal_string : Text → Result Text
  pub unmarshal_int32 : Text → Result ℤ

module _ (json : Json) where
  -- An int32 is marshalled as its decimal digits.
  unfoldable pub marshal_json : IntOrString → Result Text
  marshal_json i = if i.is_string then json.marshal_string i.str_val else ok (decimal_int i.int_val)

  -- The value of a decoding, or the value that is there and its error.
  unfoldable pub decoded {ℓ} :
      {A : Type ℓ}
      → IntOrString
      → (A → IntOrString)
      → (Error → Error)
      → Result A
      → IntOrString × Result (Unit {0})
  decoded i make failing (ok a) = (make a, ok tt)
  decoded i make failing (err e) = (i, err (failing e))

  unfoldable pub unmarshal_json : IntOrString → Text → IntOrString × Result (Unit {0})
  unmarshal_json i [] = (i, err (errorf "IntOrString: empty input" []))
  unmarshal_json i (c ∷ rest) =
      let as_string =
        decoded i int_or_string_from_string (λ e. wrap "IntOrString: unmarshal string: %w" [] e)
          (json.unmarshal_string (c ∷ rest)) in
      let as_int =
        decoded i int_or_string_from_int (λ e. wrap "IntOrString: unmarshal int32: %w" [] e)
          (json.unmarshal_int32 (c ∷ rest)) in
      if eqb c b'"' then as_string else as_int
