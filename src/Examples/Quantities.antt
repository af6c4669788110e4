-- ===== src/Examples/Quantities.antt =====
-- Quantities and resource requirements.
use theo_forge.Prelude.{text, [], ◌≡◌, ◌↔◌, ok}
use theo_forge.Model.Basic.{ResourceRequirements}
use theo_forge.Units.Pattern.{binary_suffixes, decimal_suffixes}
use theo_forge.Units.Resources.{binary_unit, decimal_unit, convert_binary_unit}
use theo_forge.Units.Laws.{
  IsQuantity, binary_unit_iff, decimal_unit_iff, IsBinaryValue, convert_binary_unit_iff,
}
use theo_forge.Examples.Floating.{fixed}

binary_unit_example :
    (binary_unit (text "1.5Gi") ≡ ok tt) ↔ IsQuantity binary_suffixes (text "1.5Gi")
binary_unit_example = binary_unit_iff (text "1.5Gi")

decimal_unit_example :
    (decimal_unit (text "250m") ≡ ok tt) ↔ IsQuantity decimal_suffixes (text "250m")
decimal_unit_example = decimal_unit_iff (text "250m")

convert_binary_unit_example :
    (convert_binary_unit fixed (text "2Ki") ≡ ok 2048000) ↔ IsBinaryValue fixed (text "2Ki") 2048000
convert_binary_unit_example = convert_binary_unit_iff fixed (text "2Ki") 2048000

abbrev small : ResourceRequirements
small = record {
  requests = record { cpu = text "100m"; memory = text "128Mi"; ephemeral_storage = [] };
  limits = record { cpu = text "1"; memory = text "1Gi"; ephemeral_storage = text "2Gi" };
}
