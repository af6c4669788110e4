-- ===== src/Units/Resources.antt =====
-- Unit validation and conversion, and the check of requests against limits, of validate/units.go.
-- The float64 arithmetic is an interface: parsing, multiplication, `math.Pow`, literals, and `<`.
use theo_forge.Prelude.{
  ℕ, Bool, not, Text, text, String, Option, none, some, [], ◌∷◌, ◌==◌, is_empty, is_some,
  if◌then◌else◌, Result, ok, err, errorf, fail_if, wrapping, ◌>>◌,
}
use theo_forge.Model.Basic.{ResourceRequirements}
use theo_forge.Units.Pattern.{submatch, binary_suffixes, decimal_suffixes}

-- `strconv.ParseFloat`, which fails out of range, and the operations that the conversions use.
pub record Floats : Type 1 where
  pub Float : Type 0
  pub parse_float : Text → Option Float
  pub times : Float → Float → Float
  pub pow : ℕ → ℕ → Float
  pub literal : String → Float
  pub less : Float → Float → Bool

unfoldable pub binary_unit : Text → Result (Unit {0})
binary_unit s =
    fail_if (not (is_some (submatch binary_suffixes s)))
      (errorf "invalid binary unit %q: must match <number>[Ki|Mi|Gi|Ti|Pi|Ei]" (s ∷ []))

unfoldable pub decimal_unit : Text → Result (Unit {0})
decimal_unit s =
    fail_if (not (is_some (submatch decimal_suffixes s)))
      (errorf "invalid decimal unit %q: must match <number>[m|k|M|G|T|P|E]" (s ∷ []))

module _ (fl : Floats) where
  open fl use {Float, parse_float, times, pow, literal, less}

  unfoldable pub binary_multiplier : Text → Option Float
  binary_multiplier suffix =
      if is_empty suffix
      then some (literal "1")
      else if suffix == text "Ki"
      then some (pow 2 10)
      else if suffix == text "Mi"
      then some (pow 2 20)
      else if suffix == text "Gi"
      then some (pow 2 30)
      else if suffix == text "Ti"
      then some (pow 2 40)
      else if suffix == text "Pi"
      then some (pow 2 50)
      else if suffix == text "Ei"
      then some (pow 2 60)
      else none

  unfoldable pub decimal_multiplier : Text → Option Float
  decimal_multiplier suffix =
      if is_empty suffix
      then some (literal "1")
      else if suffix == text "m"
      then some (literal "0.001")
      else if suffix == text "k"
      then some (literal "1000")
      else if suffix == text "M"
      then some (literal "1e6")
      else if suffix == text "G"
      then some (literal "1e9")
      else if suffix == text "T"
      then some (literal "1e12")
      else if suffix == text "P"
      then some (literal "1e15")
      else if suffix == text "E"
      then some (literal "1e18")
      else none

  -- The body that the two conversions share, after their validation: the groups, the number, and the
  -- multiplier of the suffix.
  unfoldable pub scale : String → (Text → Option Float) → Option (Text × Text) → Result Float
  scale unknown multiplier none = err (errorf "parse number: %w" [])
  scale unknown multiplier (some (digits, suffix)) = elim (parse_float digits) [
    | none ↦ err (errorf "parse number: %w" (digits ∷ []))
    | some num ↦ elim (multiplier suffix) [
      | none ↦ err (errorf unknown (suffix ∷ []))
      | some mult ↦ ok (times num mult)
    ]
  ]

  unfoldable pub convert_binary_unit : Text → Result Float
  convert_binary_unit s = do
    binary_unit s
    scale "unknown binary suffix %q" binary_multiplier (submatch binary_suffixes s)

  unfoldable pub convert_decimal_unit : Text → Result Float
  convert_decimal_unit s = do
    decimal_unit s
    scale "unknown decimal suffix %q" decimal_multiplier (submatch decimal_suffixes s)

  -- `v, _ := convert(s)`: the value is 0 where the conversion fails.
  abbrev pub value_or_zero : Result Float → Float
  value_or_zero (ok v) = v
  value_or_zero (err e) = literal "0"

  unfoldable pub check_cpu : Text → Text → Result (Unit {0})
  check_cpu request limit =
      if is_empty request
      then (if is_empty limit
          then ok tt
          else wrapping "invalid cpu limit: %w" [] (decimal_unit limit))
      else (do
        wrapping "invalid cpu request: %w" [] (decimal_unit request)
        let req_val = value_or_zero (convert_decimal_unit request)
        fail_if (less req_val (literal "0")) (errorf "cpu request must be positive" [])
        if is_empty limit then ok tt else (do
          wrapping "invalid cpu limit: %w" [] (decimal_unit limit)
          let lim_val = value_or_zero (convert_decimal_unit limit)
          fail_if (less lim_val req_val) (
              errorf "cpu request must be smaller or equal to limit (%s > %s)"
                (request ∷ limit ∷ []))))

  unfoldable pub check_memory : Text → Text → Result (Unit {0})
  check_memory request limit =
      if is_empty request
      then (if is_empty limit
          then ok tt
          else wrapping "invalid memory limit: %w" [] (binary_unit limit))
      else (do
        wrapping "invalid memory request: %w" [] (binary_unit request)
        let req_val = value_or_zero (convert_binary_unit request)
        fail_if (less req_val (literal "0")) (errorf "memory request must be positive" [])
        if is_empty limit then ok tt else (do
          wrapping "invalid memory limit: %w" [] (binary_unit limit)
          let lim_val = value_or_zero (convert_binary_unit limit)
          fail_if (less lim_val req_val) (
              errorf "memory request must be smaller or equal to limit (%s > %s)"
                (request ∷ limit ∷ []))))

  unfoldable pub check_ephemeral_storage : Text → Text → Result (Unit {0})
  check_ephemeral_storage request limit =
      if is_empty request
      then (if is_empty limit
          then ok tt
          else wrapping "invalid ephemeral storage limit: %w" [] (binary_unit limit))
      else (do
        wrapping "invalid ephemeral storage request: %w" [] (binary_unit request)
        if is_empty limit then ok tt else (do
          wrapping "invalid ephemeral storage limit: %w" [] (binary_unit limit)
          let req_val = value_or_zero (convert_binary_unit request)
          let lim_val = value_or_zero (convert_binary_unit limit)
          fail_if (less lim_val req_val) (
              errorf "ephemeral storage request must be smaller or equal to limit (%s > %s)"
                (request ∷ limit ∷ []))))

  unfoldable pub resource_requirements : ResourceRequirements → Result (Unit {0})
  resource_requirements r = do
    check_cpu r.requests.cpu r.limits.cpu
    check_memory r.requests.memory r.limits.memory
    check_ephemeral_storage r.requests.ephemeral_storage r.limits.ephemeral_storage
