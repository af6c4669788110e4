-- ===== src/Units/Laws.antt =====
-- Which quantities are valid, what they convert to, and which requirements are accepted.
use theo_forge.Prelude.{
  ◌≡◌, ◌≢◌, ◌↔◌, inl, inr, Option-cases, true, false, Text, String, Option, some, List, [], ◌∷◌, ok,
  arith, >>=-eq-ok, All, is_some, text, refl, ◌==◌, ==_iff, Bool-cases, if◌then◌else◌,
}
use theo_forge.Model.Basic.{ResourceRequirements}
use theo_forge.Units.Pattern.{submatch, binary_suffixes, decimal_suffixes}
use theo_forge.Units.Language.{IsUnit, StartsSuffix, submatch_iff}
use theo_forge.Units.Resources.{
  Floats, binary_unit, decimal_unit, binary_multiplier, decimal_multiplier, scale,
  convert_binary_unit, convert_decimal_unit, value_or_zero, check_cpu, check_memory,
  check_ephemeral_storage, resource_requirements,
}

-- A number and one of the suffixes.
abbrev pub IsQuantity : List Text → Text → Type 0
IsQuantity suffixes s = (n : Text) × (u : Text) × IsUnit suffixes s n u

binary_plain : All StartsSuffix binary_suffixes
binary_plain = ground arith

decimal_plain : All StartsSuffix decimal_suffixes
decimal_plain = ground arith

matched_iff :
    (suffixes : List Text) (s : Text)
    → All StartsSuffix suffixes
    → (is_some (submatch suffixes s) ≡ true) ↔ IsQuantity suffixes s
matched_iff suffixes s plain = (
  λ h. elim (Option-cases (submatch suffixes s)) [
    | inl missed ↦ ground arith
    | inr ((n, u), found) ↦ (n, u, (submatch_iff suffixes s n u plain).0 found)
  ],
  λ (n, u, k). rw ((submatch_iff suffixes s n u plain).1 k),
)

-- A binary unit is accepted exactly if it is a number and one of the suffixes Ki to Ei, or none.
pub binary_unit_iff : (s : Text) → (binary_unit s ≡ ok tt) ↔ IsQuantity binary_suffixes s
unfolding binary_unit
binary_unit_iff s = (
  λ h. (matched_iff binary_suffixes s binary_plain).0 (ground arith),
  λ q. ground (arith, (matched_iff binary_suffixes s binary_plain).1 q),
)

-- A decimal unit is accepted exactly if it is a number and one of the suffixes m, k, M, G, T, P, E,
-- or none.
pub decimal_unit_iff : (s : Text) → (decimal_unit s ≡ ok tt) ↔ IsQuantity decimal_suffixes s
unfolding decimal_unit
decimal_unit_iff s = (
  λ h. (matched_iff decimal_suffixes s decimal_plain).0 (ground arith),
  λ q. ground (arith, (matched_iff decimal_suffixes s decimal_plain).1 q),
)

module _ (fl : Floats) where
  open fl use {Float, parse_float, times, less, literal, pow}

  -- The value `v` of a quantity: the number's, times the multiplier of the suffix.
  pub record Converts (suffixes : List Text) (multiplier : Text → Option Float) (s : Text)
      (v : Float) : Type 0 where
    pub number : Text
    pub suffix : Text
    pub value : Float
    pub factor : Float
    pub is_unit : IsUnit suffixes s number suffix
    pub parsed : parse_float number ≡ some value
    pub scaled : multiplier suffix ≡ some factor
    pub product : v ≡ times value factor

  scale-Converts :
      (suffixes : List Text) (multiplier : Text → Option Float) (unknown : String) (s : Text)
      (v : Float)
      → All StartsSuffix suffixes
      → (scale fl unknown multiplier (submatch suffixes s) ≡ ok v)
        ↔ Converts suffixes multiplier s v
  unfolding scale
  scale-Converts suffixes multiplier unknown s v plain = (
    λ h. elim (Option-cases (submatch suffixes s)) [
      | inl missed ↦ ground arith
      | inr ((n, u), found) ↦ elim (Option-cases (parse_float n)) [
        | inl unparsed ↦ ground arith
        | inr (x, p) ↦ elim (Option-cases (multiplier u)) [
          | inl unknown_suffix ↦ ground arith
          | inr (m, q) ↦ record {
            number = n;
            suffix = u;
            value = x;
            factor = m;
            is_unit = (submatch_iff suffixes s n u plain).0 found;
            parsed = p;
            scaled = q;
            product = ground arith;
          }
        ]
      ]
    ],
    λ c. ground (
      arith,
      (submatch_iff suffixes s c.number c.suffix plain).1 c.is_unit,
      c.parsed,
      c.scaled,
      c.product,
    ),
  )

  Converts-IsQuantity :
      {suffixes : List Text} {multiplier : Text → Option Float} {s : Text} {v : Float}
      → Converts suffixes multiplier s v
      → IsQuantity suffixes s
  Converts-IsQuantity c = (c.number, c.suffix, c.is_unit)

  binary-Converts_iff :
      (s : Text) (v : Float)
      → (convert_binary_unit fl s ≡ ok v) ↔ Converts binary_suffixes (binary_multiplier fl) s v
  unfolding convert_binary_unit
  binary-Converts_iff s v =
      let (to, from) =
        scale-Converts binary_suffixes (binary_multiplier fl) "unknown binary suffix %q" s v
          binary_plain in
      (
        λ h. let (_, _, h1) = >>=-eq-ok (binary_unit s) _ h in to h1,
        λ c. rw ((binary_unit_iff s).1 (Converts-IsQuantity c)) (from c),
      )

  -- The power of two that a binary suffix stands for.
  pub data BinaryFactor : Text → Float → Type 0 where
    plain : BinaryFactor [] (literal "1")
    kibi : BinaryFactor (text "Ki") (pow 2 10)
    mebi : BinaryFactor (text "Mi") (pow 2 20)
    gibi : BinaryFactor (text "Gi") (pow 2 30)
    tebi : BinaryFactor (text "Ti") (pow 2 40)
    pebi : BinaryFactor (text "Pi") (pow 2 50)
    exbi : BinaryFactor (text "Ei") (pow 2 60)

  -- One test of the multiplier.
  tested :
      (u v : Text) (x f : Float) (rest : Option Float)
      → BinaryFactor v x
      → (rest ≡ some f → BinaryFactor u f)
      → (if u == v then some x else rest) ≡ some f
      → BinaryFactor u f
  tested u v x f rest b k h = elim (Bool-cases (u == v)) [
    | inl e ↦
        let same : x ≡ f = cc (rw e at h) in
        let named : u ≡ v = (==_iff u v).0 e in rw (named, ← same) b
    | inr e ↦ k (rw e at h)
  ]

  binary_multiplier-BinaryFactor :
      (u : Text) (f : Float) → binary_multiplier fl u ≡ some f → BinaryFactor u f
  unfolding binary_multiplier
  binary_multiplier-BinaryFactor [] f h = let same : literal "1" ≡ f = cc in rw (← same) plain
  binary_multiplier-BinaryFactor (c ∷ u) f h =
      tested (c ∷ u) _ _ f _ kibi
        (tested (c ∷ u) _ _ f _ mebi (
          tested (c ∷ u) _ _ f _ gibi (
            tested (c ∷ u) _ _ f _ tebi (
              tested (c ∷ u) _ _ f _ pebi (tested (c ∷ u) _ _ f _ exbi (λ q. ground (arith, q)))))))
        h

  BinaryFactor-binary_multiplier :
      {u : Text} {f : Float} → BinaryFactor u f → binary_multiplier fl u ≡ some f
  unfolding binary_multiplier ◌==◌
  BinaryFactor-binary_multiplier plain = refl
  BinaryFactor-binary_multiplier kibi = refl
  BinaryFactor-binary_multiplier mebi = refl
  BinaryFactor-binary_multiplier gibi = refl
  BinaryFactor-binary_multiplier tebi = refl
  BinaryFactor-binary_multiplier pebi = refl
  BinaryFactor-binary_multiplier exbi = refl

  -- The value `v` of a binary quantity: the number's, times the power of two of the suffix.
  pub record IsBinaryValue (s : Text) (v : Float) : Type 0 where
    pub number : Text
    pub suffix : Text
    pub value : Float
    pub factor : Float
    pub is_unit : IsUnit binary_suffixes s number suffix
    pub parsed : parse_float number ≡ some value
    pub scaled : BinaryFactor suffix factor
    pub product : v ≡ times value factor

  -- A binary unit converts to `v` exactly if it is a number, which parses, and a suffix, and `v` is the
  -- product of the number's value and the suffix's power of two.
  pub convert_binary_unit_iff :
      (s : Text) (v : Float) → (convert_binary_unit fl s ≡ ok v) ↔ IsBinaryValue s v
  convert_binary_unit_iff s v =
      let (to, from) = binary-Converts_iff s v in
      (
        λ h.
            let c = to h in
            record {
              number = c.number;
              suffix = c.suffix;
              value = c.value;
              factor = c.factor;
              is_unit = c.is_unit;
              parsed = c.parsed;
              scaled = binary_multiplier-BinaryFactor c.suffix c.factor c.scaled;
              product = c.product;
            },
        λ b. from (record {
          number = b.number;
          suffix = b.suffix;
          value = b.value;
          factor = b.factor;
          is_unit = b.is_unit;
          parsed = b.parsed;
          scaled = BinaryFactor-binary_multiplier b.scaled;
          product = b.product;
        }),
      )

  -- A decimal unit converts to `v` exactly if it is a number, which parses, and a suffix, and `v` is the
  -- product of the number's value and the suffix's power of ten.
  pub convert_decimal_unit_iff :
      (s : Text) (v : Float)
      → (convert_decimal_unit fl s ≡ ok v) ↔ Converts decimal_suffixes (decimal_multiplier fl) s v
  unfolding convert_decimal_unit
  convert_decimal_unit_iff s v =
      let (to, from) =
        scale-Converts decimal_suffixes (decimal_multiplier fl) "unknown decimal suffix %q" s v
          decimal_plain in
      (
        λ h. let (_, _, h1) = >>=-eq-ok (decimal_unit s) _ h in to h1,
        λ c. rw ((decimal_unit_iff s).1 (Converts-IsQuantity c)) (from c),
      )

  -- A request and its limit: those that are given are valid, and if both are, the limit's value is not
  -- below the request's. A quantity whose number does not parse has the value 0.
  pub record Fits (IsValid : Text → Type 0) (value : Text → Float) (request limit : Text)
      : Type 0 where
    pub request_form : request ≢ [] → IsValid request
    pub limit_form : limit ≢ [] → IsValid limit
    pub within : request ≢ [] → limit ≢ [] → less (value limit) (value request) ≡ false

  Fits-map :
      {P Q : Text → Type 0} {value : Text → Float} {request limit : Text}
      → ((s : Text) → P s → Q s)
      → Fits P value request limit
      → Fits Q value request limit
  Fits-map f v = record {
    request_form = λ n. f _ (v.request_form n);
    limit_form = λ n. f _ (v.limit_form n);
    within = v.within;
  }

  abbrev pub decimal_value : Text → Float
  decimal_value s = value_or_zero fl (convert_decimal_unit fl s)

  abbrev pub binary_value : Text → Float
  binary_value s = value_or_zero fl (convert_binary_unit fl s)

  -- The request of a resource is not negative.
  abbrev pub IsPositive : (Text → Float) → Text → Type 0
  IsPositive value request = request ≢ [] → less (value request) (literal "0") ≡ false

  check_cpu_lem :
      (request limit : Text)
      → (check_cpu fl request limit ≡ ok tt) ↔ (
          Fits (λ s. decimal_unit s ≡ ok tt) decimal_value request limit
          × IsPositive decimal_value request)
  unfolding check_cpu
  check_cpu_lem [] [] = (λ h. ground arith, λ f. ground arith)
  check_cpu_lem [] (d ∷ l) = (λ h. ground arith, λ f. ground (arith, f.0.limit_form))
  check_cpu_lem (c ∷ r) [] = (λ h. ground arith, λ f. ground (arith, f.0.request_form, f.1))
  check_cpu_lem (c ∷ r) (d ∷ l) =
      (λ h. ground arith, λ f. ground (arith, f.0.limit_form, f.0.request_form, f.0.within, f.1))

  check_memory_lem :
      (request limit : Text)
      → (check_memory fl request limit ≡ ok tt) ↔ (
          Fits (λ s. binary_unit s ≡ ok tt) binary_value request limit
          × IsPositive binary_value request)
  unfolding check_memory
  check_memory_lem [] [] = (λ h. ground arith, λ f. ground arith)
  check_memory_lem [] (d ∷ l) = (λ h. ground arith, λ f. ground (arith, f.0.limit_form))
  check_memory_lem (c ∷ r) [] = (λ h. ground arith, λ f. ground (arith, f.0.request_form, f.1))
  check_memory_lem (c ∷ r) (d ∷ l) =
      (λ h. ground arith, λ f. ground (arith, f.0.limit_form, f.0.request_form, f.0.within, f.1))

  check_storage_lem :
      (request limit : Text)
      → (check_ephemeral_storage fl request limit ≡ ok tt)
        ↔ Fits (λ s. binary_unit s ≡ ok tt) binary_value request limit
  unfolding check_ephemeral_storage
  check_storage_lem [] [] = (λ h. ground arith, λ f. ground arith)
  check_storage_lem [] (d ∷ l) = (λ h. ground arith, λ f. ground (arith, f.limit_form))
  check_storage_lem (c ∷ r) [] = (λ h. ground arith, λ f. ground (arith, f.request_form))
  check_storage_lem (c ∷ r) (d ∷ l) =
      (λ h. ground arith, λ f. ground (arith, f.limit_form, f.request_form, f.within))

  pub record IsAllowed (r : ResourceRequirements) : Type 0 where
    pub cpu : Fits (IsQuantity decimal_suffixes) decimal_value r.requests.cpu r.limits.cpu
    pub cpu_positive : IsPositive decimal_value r.requests.cpu
    pub memory : Fits (IsQuantity binary_suffixes) binary_value r.requests.memory r.limits.memory
    pub memory_positive : IsPositive binary_value r.requests.memory
    pub storage :
        Fits
          (IsQuantity binary_suffixes)
          binary_value
          r.requests.ephemeral_storage
          r.limits.ephemeral_storage

  pub resource_requirements_iff :
      (r : ResourceRequirements) → (resource_requirements fl r ≡ ok tt) ↔ IsAllowed r
  unfolding resource_requirements
  resource_requirements_iff r =
      let q = r.requests in
      let l = r.limits in
      (
        λ h.
            let (_, c, h1) = >>=-eq-ok (check_cpu fl q.cpu l.cpu) _ h in
            let (_, m, s) = >>=-eq-ok (check_memory fl q.memory l.memory) _ h1 in
            let cpu = (check_cpu_lem q.cpu l.cpu).0 c in
            let memory = (check_memory_lem q.memory l.memory).0 m in
            let storage = (check_storage_lem q.ephemeral_storage l.ephemeral_storage).0 s in
            record {
              cpu = Fits-map (λ t. (decimal_unit_iff t).0) cpu.0;
              cpu_positive = cpu.1;
              memory = Fits-map (λ t. (binary_unit_iff t).0) memory.0;
              memory_positive = memory.1;
              storage = Fits-map (λ t. (binary_unit_iff t).0) storage;
            },
        λ a.
            rw
              (
                (check_cpu_lem q.cpu l.cpu).1
                    (Fits-map (λ t. (decimal_unit_iff t).1) a.cpu, a.cpu_positive),
                (check_memory_lem q.memory l.memory).1
                    (Fits-map (λ t. (binary_unit_iff t).1) a.memory, a.memory_positive),
              )
              ((check_storage_lem q.ephemeral_storage l.ephemeral_storage).1
                (Fits-map (λ t. (binary_unit_iff t).1) a.storage)),
      )
