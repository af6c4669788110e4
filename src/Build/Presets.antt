-- ===== src/Build/Presets.antt =====
-- types.go: the presets of resources.
use theo_forge.Prelude.{text, []}
use theo_forge.Model.Basic.{ResourceRequirements}

unfoldable pub resources_tiny : ResourceRequirements
resources_tiny = record {
  requests = record { cpu = text "50m"; memory = text "32Mi"; ephemeral_storage = [] };
  limits = record { cpu = text "100m"; memory = text "64Mi"; ephemeral_storage = [] };
}

unfoldable pub resources_small : ResourceRequirements
resources_small = record {
  requests = record { cpu = text "100m"; memory = text "128Mi"; ephemeral_storage = [] };
  limits = record { cpu = text "500m"; memory = text "256Mi"; ephemeral_storage = [] };
}

unfoldable pub resources_medium : ResourceRequirements
resources_medium = record {
  requests = record { cpu = text "500m"; memory = text "512Mi"; ephemeral_storage = [] };
  limits = record { cpu = text "2000m"; memory = text "2Gi"; ephemeral_storage = [] };
}
