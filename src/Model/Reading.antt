-- ===== src/Model/Reading.antt =====
-- model/int_or_string.go: what is marshalled is read back.
use theo_forge.Prelude.{
  ℕ, ◌<◌, ◌≤◌, ◌^◌, true, false, Text, [], ◌∷◌, ◌≢◌, ◌⊎◌, eqb, Bool-cases, decimal-first, ok, ◌≡◌,
  refl, inl, inr, arith, if◌then◌else◌,
}
use theo_forge.Int.{ℤ, pos, negsuc, decimal_int}
use theo_forge.Model.Containers.{IntOrString}
use theo_forge.Model.Numbers.{
  Json, int_or_string_from_int, int_or_string_from_string, string, marshal_json, unmarshal_json,
  decoded,
}

-- A byte that goes on with a character.
abbrev pub Continues : ℕ → Type 0
Continues b = (128 ≤ b) × (b ≤ 191)

-- The first two bytes of a character of three bytes, and of four.
abbrev pub OpensThree : ℕ → ℕ → Type 0
OpensThree a b =
    ((a ≡ 224) × (160 ≤ b) × (b ≤ 191))
    ⊎ ((225 ≤ a) × (a ≤ 239) × (a ≢ 237) × Continues b)
    ⊎ ((a ≡ 237) × (128 ≤ b) × (b ≤ 159))

abbrev pub OpensFour : ℕ → ℕ → Type 0
OpensFour a b =
    ((a ≡ 240) × (144 ≤ b) × (b ≤ 191))
    ⊎ ((241 ≤ a) × (a ≤ 243) × Continues b)
    ⊎ ((a ≡ 244) × (128 ≤ b) × (b ≤ 143))

-- Valid UTF-8.
pub data IsUtf8 : Text → Type 0 where
  empty : IsUtf8 []
  one_byte : {a : ℕ} {s : Text} → a < 128 → IsUtf8 s → IsUtf8 (a ∷ s)
  two_bytes : {a b : ℕ} {s : Text} → 194 ≤ a → a ≤ 223 → Continues b → IsUtf8 s → IsUtf8 (a ∷ b ∷ s)
  three_bytes :
      {a b c : ℕ} {s : Text} → OpensThree a b → Continues c → IsUtf8 s → IsUtf8 (a ∷ b ∷ c ∷ s)
  four_bytes :
      {a b c d : ℕ} {s : Text}
      → OpensFour a b
      → Continues c
      → Continues d
      → IsUtf8 s
      → IsUtf8 (a ∷ b ∷ c ∷ d ∷ s)

-- The values of an int32.
abbrev pub IsInt32 : ℤ → Type 0
IsInt32 (pos n) = n < 2 ^ 31
IsInt32 (negsuc n) = n < 2 ^ 31

-- The value of a kind, without what the other kind has set.
abbrev pub canonical : IntOrString → IntOrString
canonical i =
    if i.is_string then int_or_string_from_string i.str_val else int_or_string_from_int i.int_val

-- The digits of a number do not begin like a string.
decimal_int-first : (i : ℤ) → (c : ℕ) × (s : Text) × (eqb c b'"' ≡ false) × (decimal_int i ≡ c ∷ s)
unfolding decimal_int
decimal_int-first (pos n) = let (d, s, k, e) = decimal-first n in (d, s, ground (arith, k), e)
decimal_int-first (negsuc n) = (45, _, refl, refl)

module _ (json : Json)
    (quotes : (s data_ : Text)
      → json.marshal_string s ≡ ok data_
      → (rest : Text) × (data_ ≡ b'"' ∷ rest))
    (strings : (s data_ : Text)
      → IsUtf8 s
      → json.marshal_string s ≡ ok data_
      → json.unmarshal_string data_ ≡ ok s)
    (ints : (n : ℤ) → IsInt32 n → json.unmarshal_int32 (decimal_int n) ≡ ok n) where
  -- What `MarshalJSON` gives of a string in valid UTF-8, or of an int32, `UnmarshalJSON` reads back into
  -- any value, as one of the same kind with the same text, if encoding/json quotes strings and reads those in
  -- valid UTF-8 and numbers back.
  pub unmarshal_json-IntOrString :
      (i into : IntOrString) (data_ : Text)
      → (i.is_string ≡ true → IsUtf8 i.str_val)
      → IsInt32 i.int_val
      → marshal_json json i ≡ ok data_
      → (unmarshal_json json into data_ ≡ (canonical i, ok tt))
        × ((canonical i).is_string ≡ i.is_string)
        × (string (canonical i) ≡ string i)
  unfolding marshal_json unmarshal_json decoded string int_or_string_from_int
      int_or_string_from_string
  unmarshal_json-IntOrString i into data_ u n h = elim (Bool-cases i.is_string) [
    | inl b ↦
        let sent : json.marshal_string i.str_val ≡ ok data_ = rw b at h in
        let (rest, e) = quotes i.str_val data_ sent in
        let back : json.unmarshal_string (b'"' ∷ rest) ≡ ok i.str_val =
          rw e at (strings i.str_val data_ (u b) sent) in
        rw (e, b, back) (refl, refl, refl)
    | inr b ↦
        let (c, s, q, e) = decimal_int-first i.int_val in
        let back : json.unmarshal_int32 (c ∷ s) ≡ ok i.int_val = rw e at (ints i.int_val n) in
        let same : data_ ≡ c ∷ s = ground (arith, h, b, e) in
        rw (same, b, q, back) (refl, refl, refl)
  ]
