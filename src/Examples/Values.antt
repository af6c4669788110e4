-- ===== src/Examples/Values.antt =====
-- Sequences of calls on a DAG, retry strategies, and numbers that are read back.
use theo_forge.Prelude.{true, Text, text, none, some, List, [], ◌∷◌, ok, ◌≡◌, refl, ap, ◌⊎◌, arith}
use theo_forge.Int.{ℤ, pos, decimal_int}
use theo_forge.Model.Basic.{nil, str}
use theo_forge.Model.Containers.{IntOrString}
use theo_forge.Model.Numbers.{Json, int_or_string_from_string, string, marshal_json, unmarshal_json}
use theo_forge.Model.Reading.{IsUtf8, IsInt32, canonical, unmarshal_json-IntOrString}
use theo_forge.Build.Shared.{RetryStrategy, build_retry_strategy}
use theo_forge.Build.Retries.{read_int, read_int-decimal_int, build_retry_strategy-limit}
use theo_forge.Dag.Refinement.{Call, one, several, make_call, spec_call, replay, replay-Refines}
use theo_forge.Examples.Graphs.{task, two, two-IsTracked}

-- A task that is new, and then three of which the second is refused.
abbrev calls : List Call
calls =
    one (task (text "C") [])
    ∷ several (task (text "D") [] ∷ task (text "A") [] ∷ task (text "E") [] ∷ [])
    ∷ []

replay-Refines_example :
    ((replay make_call two calls).0.tasks ≡ (replay spec_call two.tasks calls).0)
    × ((replay make_call two calls).1 ≡ (replay spec_call two.tasks calls).1)
replay-Refines_example = replay-Refines two calls two-IsTracked

abbrev thrice : RetryStrategy
thrice = record { limit = some (pos 3); retry_policy = []; backoff = none; expression = [] }

build_retry_strategy-limit_example :
    ((thrice.limit ≡ none) × ((build_retry_strategy thrice).limit ≡ nil))
    ⊎ ((i : ℤ) × (s : Text) × (thrice.limit ≡ some i)
        × ((build_retry_strategy thrice).limit ≡ str s)
        × (read_int s ≡ i))
build_retry_strategy-limit_example = build_retry_strategy-limit thrice

-- Quotes that close a string, and what stands in them.
abbrev unquote : Text → Text
unquote [] = []
unquote (c ∷ s) = s

abbrev simple : Json
simple = record {
  marshal_string = λ s. ok (b'"' ∷ s);
  unmarshal_string = λ data_. ok (unquote data_);
  unmarshal_int32 = λ data_. ok (read_int data_);
}

simple-quotes :
    (s data_ : Text) → simple.marshal_string s ≡ ok data_ → (rest : Text) × (data_ ≡ b'"' ∷ rest)
simple-quotes s data_ h = (s, ground (arith, h))

simple-strings :
    (s data_ : Text)
    → IsUtf8 s
    → simple.marshal_string s ≡ ok data_
    → simple.unmarshal_string data_ ≡ ok s
simple-strings s data_ u h = let same : b'"' ∷ s ≡ data_ = ground (arith, h) in rw (← same) refl

simple-ints : (n : ℤ) → IsInt32 n → simple.unmarshal_int32 (decimal_int n) ≡ ok n
simple-ints n h = ap ok (read_int-decimal_int n)

abbrev port : IntOrString
port = int_or_string_from_string (text "metrics")

port-marshalled : marshal_json simple port ≡ ok (b'"' ∷ text "metrics")
unfolding marshal_json int_or_string_from_string
port-marshalled = refl

port-IsUtf8 : port.is_string ≡ true → IsUtf8 port.str_val
unfolding int_or_string_from_string
port-IsUtf8 h = IsUtf8.one_byte (omega arith) (
    IsUtf8.one_byte (omega arith) (
      IsUtf8.one_byte (omega arith) (
        IsUtf8.one_byte (omega arith) (
          IsUtf8.one_byte (omega arith)
            (IsUtf8.one_byte (omega arith) (IsUtf8.one_byte (omega arith) IsUtf8.empty))))))

small : IsInt32 port.int_val
unfolding int_or_string_from_string
small = ground arith

unmarshal_json-IntOrString_example :
    (unmarshal_json simple port (b'"' ∷ text "metrics") ≡ (canonical port, ok tt))
    × ((canonical port).is_string ≡ port.is_string)
    × (string (canonical port) ≡ string port)
unmarshal_json-IntOrString_example =
    unmarshal_json-IntOrString simple simple-quotes simple-strings simple-ints port port
      (b'"' ∷ text "metrics") port-IsUtf8 small port-marshalled
