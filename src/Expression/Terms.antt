-- ===== src/Expression/Terms.antt =====
-- expr/expr.go: expressions as their texts, and the escaping of the literals in them.
use theo_forge.Prelude.{
  Bool, true, false, Text, text, String, List, [], ◌∷◌, ◌++◌, eqb, if◌then◌else◌,
}
use theo_forge.Int.{ℤ, decimal_int}

pub record Expr : Type 0 where
  pub repr : Text

unfoldable pub raw : Text → Expr
raw s = record { repr = s }

-- `strings.ReplaceAll(s, "'", "''")`
unfoldable pub argo_escape : Text → Text
argo_escape [] = []
argo_escape (c ∷ s) = if eqb c 39 then 39 ∷ 39 ∷ argo_escape s else c ∷ argo_escape s

-- The values of the cases of `C` that have a type of their own; a float is its printed form.
pub data Constant : Type 0 where
  nil : Constant
  bool : Bool → Constant
  int : ℤ → Constant
  float : Text → Constant
  str : Text → Constant

-- `'%s'` of an escaped text.
unfoldable pub quoted : Text → Text
quoted s = 39 ∷ (argo_escape s ++ text "'")

unfoldable pub constant : Constant → Expr
constant nil = record { repr = text "nil" }
constant (bool true) = record { repr = text "true" }
constant (bool false) = record { repr = text "false" }
constant (int i) = record { repr = decimal_int i }
constant (float f) = record { repr = f }
constant (str s) = record { repr = quoted s }

unfoldable pub raw_constant : Text → Expr
raw_constant s = record { repr = 39 ∷ (s ++ text "'") }

unfoldable pub tmpl : Expr → Text
tmpl e = text "{{" ++ (e.repr ++ text "}}")

unfoldable pub render : Expr → Text
render e = text "{{=" ++ (e.repr ++ text "}}")

unfoldable pub attr : Expr → Text → Expr
attr e field = record { repr = e.repr ++ (text "." ++ field) }

unfoldable pub index : Expr → ℤ → Expr
index e i = record { repr = e.repr ++ (text "[" ++ (decimal_int i ++ text "]")) }

unfoldable pub slice : Expr → ℤ → ℤ → Expr
slice e start end = record {
  repr = e.repr ++ (text "[" ++ (decimal_int start ++ (text ":" ++ (decimal_int end ++ text "]"))));
}

unfoldable pub slice_from : Expr → ℤ → Expr
slice_from e start = record { repr = e.repr ++ (text "[" ++ (decimal_int start ++ text ":]")) }

unfoldable pub slice_to : Expr → ℤ → Expr
slice_to e end = record { repr = e.repr ++ (text "[:" ++ (decimal_int end ++ text "]")) }

-- `"%s op %s"`
unfoldable pub binary : String → Expr → Expr → Expr
binary op e other = record { repr = e.repr ++ (text op ++ other.repr) }

unfoldable pub equals : Expr → Expr → Expr
equals e other = binary " == " e other

unfoldable pub not_equals : Expr → Expr → Expr
not_equals e other = binary " != " e other

unfoldable pub gt : Expr → Expr → Expr
gt e other = binary " > " e other

unfoldable pub gte : Expr → Expr → Expr
gte e other = binary " >= " e other

unfoldable pub lt : Expr → Expr → Expr
lt e other = binary " < " e other

unfoldable pub lte : Expr → Expr → Expr
lte e other = binary " <= " e other

unfoldable pub add : Expr → Expr → Expr
add e other = binary " + " e other

unfoldable pub sub : Expr → Expr → Expr
sub e other = binary " - " e other

unfoldable pub mul : Expr → Expr → Expr
mul e other = binary " * " e other

unfoldable pub div : Expr → Expr → Expr
div e other = binary " / " e other

unfoldable pub remainder : Expr → Expr → Expr
remainder e other = binary " % " e other

unfoldable pub pow : Expr → Expr → Expr
pow e other = binary " ** " e other

unfoldable pub and : Expr → Expr → Expr
and e other = binary " && " e other

unfoldable pub or_expr : Expr → Expr → Expr
or_expr e other = binary " || " e other

unfoldable pub neg : Expr → Expr
neg e = record { repr = text "-" ++ e.repr }

unfoldable pub not_ : Expr → Expr
not_ e = record { repr = text "!" ++ e.repr }

-- `"%s.method('%s')"` of an escaped text.
unfoldable pub string_method : String → Expr → Text → Expr
string_method method e s = record { repr = e.repr ++ (text method ++ (quoted s ++ text ")")) }

unfoldable pub contains : Expr → Text → Expr
contains e s = string_method ".contains(" e s

unfoldable pub matches : Expr → Text → Expr
matches e s = string_method ".matches(" e s

unfoldable pub starts_with : Expr → Text → Expr
starts_with e s = string_method ".startsWith(" e s

unfoldable pub ends_with : Expr → Text → Expr
ends_with e s = string_method ".endsWith(" e s

unfoldable pub length_of : Expr → Expr
length_of e = record { repr = e.repr ++ text ".length()" }

unfoldable pub to_json : Expr → Expr
to_json e = record { repr = e.repr ++ text ".toJson()" }

unfoldable pub as_float : Expr → Expr
as_float e = record { repr = e.repr ++ text ".asFloat()" }

unfoldable pub as_int : Expr → Expr
as_int e = record { repr = e.repr ++ text ".asInt()" }

unfoldable pub as_str : Expr → Expr
as_str e = record { repr = e.repr ++ text ".string()" }

unfoldable pub check : Expr → Expr → Expr → Expr
check e if_true if_false = record {
  repr = e.repr ++ (text " ? " ++ (if_true.repr ++ (text " : " ++ if_false.repr)));
}

unfoldable pub map_with : Expr → Expr → Expr
map_with e lambda = record { repr = e.repr ++ (text ".map(" ++ (lambda.repr ++ text ")")) }

unfoldable pub filter_with : Expr → Expr → Expr
filter_with e lambda = record { repr = e.repr ++ (text ".filter(" ++ (lambda.repr ++ text ")")) }

-- `"sprig.function('%s')"` of an escaped text.
unfoldable pub sprig : String → Text → Expr
sprig function s = record { repr = text function ++ (quoted s ++ text ")") }

unfoldable pub sprig_trim : Text → Expr
sprig_trim s = sprig "sprig.trim(" s

unfoldable pub sprig_upper : Text → Expr
sprig_upper s = sprig "sprig.upper(" s

unfoldable pub sprig_lower : Text → Expr
sprig_lower s = sprig "sprig.lower(" s

unfoldable pub sprig_replace : Text → Text → Text → Expr
sprig_replace old new s = record {
  repr =
      text "sprig.replace("
      ++ (quoted old ++ (text ", " ++ (quoted new ++ (text ", " ++ (quoted s ++ text ")")))));
}

-- `strings.Join(parts, sep)` of the texts.
unfoldable pub join : Text → List Expr → Text
join sep [] = []
join sep (e ∷ []) = e.repr
join sep (e ∷ f ∷ es) = e.repr ++ (sep ++ join sep (f ∷ es))

unfoldable pub concat : Text → List Expr → Expr
concat sep es = record { repr = join sep es }
