-- ===== src/Build/Env.antt =====
-- env.go: the types that build an environment variable.
use theo_forge.Prelude.{Bool, Text, Option, none, some}
use theo_forge.Model.Basic.{EnvVarModel, no_source}

pub record Env : Type 0 where
  pub name : Text
  pub value : Text

unfoldable pub build_env : Env → EnvVarModel
build_env e = record { name = e.name; value = some e.value; value_from = none }

pub record SecretEnv : Type 0 where
  pub name : Text
  pub secret_name : Text
  pub secret_key : Text
  pub optional : Option Bool

unfoldable pub build_secret_env : SecretEnv → EnvVarModel
build_secret_env e = record {
  name = e.name;
  value = none;
  value_from = some (record no_source {
    secret_key_ref =
        some (record { name = e.secret_name; key = e.secret_key; optional = e.optional });
  });
}

pub record ConfigMapEnv : Type 0 where
  pub name : Text
  pub config_map_name : Text
  pub config_map_key : Text
  pub optional : Option Bool

unfoldable pub build_config_map_env : ConfigMapEnv → EnvVarModel
build_config_map_env e = record {
  name = e.name;
  value = none;
  value_from = some (record no_source {
    config_map_key_ref =
        some (record { name = e.config_map_name; key = e.config_map_key; optional = e.optional });
  });
}

pub record FieldEnv : Type 0 where
  pub name : Text
  pub field_path : Text
  pub api_version : Text

unfoldable pub build_field_env : FieldEnv → EnvVarModel
build_field_env e = record {
  name = e.name;
  value = none;
  value_from = some (record no_source {
    field_ref = some (record { field_path = e.field_path; api_version = e.api_version });
  });
}

pub record ResourceEnv : Type 0 where
  pub name : Text
  pub resource : Text
  pub container_name : Text
  pub divisor : Text

unfoldable pub build_resource_env : ResourceEnv → EnvVarModel
build_resource_env e = record {
  name = e.name;
  value = none;
  value_from = some (record no_source {
    resource_field_ref =
        some (record {
          resource = e.resource;
          container_name = e.container_name;
          divisor = e.divisor;
        });
  });
}
