-- ===== src/Build/Volumes.antt =====
-- volume.go: the volume types, and claims for dynamic provisioning.
use theo_forge.Prelude.{
  ℕ, suc, ◌+◌, Bool, false, Text, text, Option, none, some, List, [], ◌∷◌, is_empty, is_some, not,
  eqb, decimal, if◌then◌else◌, Result, ok, errorf, fail_if, ◌>>=◌, ◌>>◌,
}
use mathlib.Core.Option
use theo_forge.Int.{ℤ}
use theo_forge.Model.Volumes.{
  VolumeModel, VolumeMountModel, VolumeProjectionModel, PvcModel, volume_named,
}
use theo_forge.Build.Shared.{one_if}

pub record BaseVolume : Type 0 where
  pub name : Text
  pub mount_path : Text
  pub read_only : Bool
  pub sub_path : Text
  pub sub_path_expr : Text
  pub mount_propagation : Text

unfoldable pub validate : BaseVolume → Result (Unit {0})
validate v = fail_if (is_empty v.name) (errorf "volume name cannot be empty" [])

unfoldable pub build_volume_mount : BaseVolume → VolumeMountModel
build_volume_mount v = record {
  name = v.name;
  mount_path = v.mount_path;
  read_only = v.read_only;
  sub_path = v.sub_path;
  sub_path_expr = v.sub_path_expr;
  mount_propagation = v.mount_propagation;
}

pub record EmptyDirVolume : Type 0 where
  pub base_volume : BaseVolume
  pub open base_volume use *
  pub medium : Text
  pub size_limit : Text

unfoldable pub build_empty_dir : EmptyDirVolume → Result VolumeModel
unfolding validate
build_empty_dir v = do
  validate v.base_volume
  ok (record (volume_named v.name) {
    empty_dir = some (record { medium = v.medium; size_limit = v.size_limit });
  })

pub record HostPathVolume : Type 0 where
  pub base_volume : BaseVolume
  pub open base_volume use *
  pub path : Text
  pub type : Text

unfoldable pub build_host_path : HostPathVolume → Result VolumeModel
unfolding validate
build_host_path v = do
  validate v.base_volume
  ok (record (volume_named v.name) { host_path = some (record { path = v.path; type = v.type }) })

pub record ConfigMapVolume : Type 0 where
  pub base_volume : BaseVolume
  pub open base_volume use *
  pub config_map_name : Text
  pub default_mode : Option ℤ
  pub optional : Option Bool

unfoldable pub build_config_map : ConfigMapVolume → Result VolumeModel
unfolding validate
build_config_map v = do
  validate v.base_volume
  let cm_name = if is_empty v.config_map_name then v.name else v.config_map_name
  ok (record (volume_named v.name) {
    config_map =
        some (record { name = cm_name; default_mode = v.default_mode; optional = v.optional });
  })

pub record SecretVolume : Type 0 where
  pub base_volume : BaseVolume
  pub open base_volume use *
  pub secret_name : Text
  pub default_mode : Option ℤ
  pub optional : Option Bool

unfoldable pub build_secret : SecretVolume → Result VolumeModel
unfolding validate
build_secret v = do
  validate v.base_volume
  let name = if is_empty v.secret_name then v.name else v.secret_name
  ok (record (volume_named v.name) {
    secret =
        some (record { secret_name = name; default_mode = v.default_mode; optional = v.optional });
  })

pub record ExistingVolume : Type 0 where
  pub base_volume : BaseVolume
  pub open base_volume use *
  pub claim_name : Text

unfoldable pub build_existing : ExistingVolume → Result VolumeModel
unfolding validate
build_existing v = do
  validate v.base_volume
  ok (record (volume_named v.name) {
    persistent_volume_claim = some (record { claim_name = v.claim_name; read_only = v.read_only });
  })

pub record PvcVolume : Type 0 where
  pub base_volume : BaseVolume
  pub open base_volume use *
  pub size : Text
  pub storage_class_name : Text
  pub access_modes : List Text

unfoldable pub build_pvc_volume : PvcVolume → Result VolumeModel
unfolding validate
build_pvc_volume v = do
  validate v.base_volume
  ok (record (volume_named v.name) {
    persistent_volume_claim = some (record { claim_name = v.name; read_only = false });
  })

unfoldable pub build_pvc : PvcVolume → Result PvcModel
unfolding validate
build_pvc v = do
  validate v.base_volume
  let modes = if is_empty v.access_modes then text "ReadWriteOnce" ∷ [] else v.access_modes
  ok (record {
    metadata = record { name = v.name };
    spec = record {
      access_modes = modes;
      storage_class_name = v.storage_class_name;
      resources = record { requests = record { storage = v.size } };
    };
  })

pub record NfsVolume : Type 0 where
  pub base_volume : BaseVolume
  pub open base_volume use *
  pub server : Text
  pub path : Text

unfoldable pub build_nfs : NfsVolume → Result VolumeModel
unfolding validate
build_nfs v = do
  validate v.base_volume
  ok (record (volume_named v.name) {
    nfs = some (record { server = v.server; path = v.path; read_only = false });
  })

pub record ServiceAccountTokenProjection : Type 0 where
  pub audience : Text
  pub expiration_seconds : Option ℤ
  pub path : Text

pub record ConfigMapProjection : Type 0 where
  pub name : Text
  pub default_mode : Option ℤ
  pub optional : Option Bool

pub record SecretProjection : Type 0 where
  pub secret_name : Text
  pub default_mode : Option ℤ
  pub optional : Option Bool

pub record DownwardApiProjection : Type 0 where
  pub default_mode : Option ℤ

pub record VolumeProjection : Type 0 where
  pub service_account_token : Option ServiceAccountTokenProjection
  pub config_map : Option ConfigMapProjection
  pub secret : Option SecretProjection
  pub downward_api : Option DownwardApiProjection

pub record ProjectedVolume : Type 0 where
  pub base_volume : BaseVolume
  pub open base_volume use *
  pub default_mode : Option ℤ
  pub sources : List VolumeProjection

unfoldable pub source_count : VolumeProjection → ℕ
source_count s =
    one_if (is_some s.service_account_token)
    + (one_if (is_some s.config_map)
        + (one_if (is_some s.secret) + one_if (is_some s.downward_api)))

unfoldable pub token_path_missing : VolumeProjection → Bool
token_path_missing s = elim s.service_account_token [ none ↦ false | some t ↦ is_empty t.path ]

-- One round of the loop over the sources; `i` is the index.
unfoldable pub build_projection : Text → ℕ → VolumeProjection → Result VolumeProjectionModel
unfolding token_path_missing source_count
build_projection name i s = do
  fail_if (not (eqb (source_count s) 1)) (
      errorf
        "projected volume %q source[%d]: exactly one of ServiceAccountToken/ConfigMap/Secret/DownwardAPI must be set (got %d)"
        (name ∷ decimal i ∷ decimal (source_count s) ∷ []))
  fail_if (token_path_missing s) (
      errorf "projected volume %q source[%d] ServiceAccountToken: Path is required"
        (name ∷ decimal i ∷ []))
  ok (record {
    service_account_token =
        Option.map
          (λ t. record {
            audience = t.audience;
            expiration_seconds = t.expiration_seconds;
            path = t.path;
          })
          s.service_account_token;
    config_map =
        Option.map
          (λ c. record { name = c.name; default_mode = c.default_mode; optional = c.optional })
          s.config_map;
    secret =
        Option.map
          (λ c. record {
            secret_name = c.secret_name;
            default_mode = c.default_mode;
            optional = c.optional;
          })
          s.secret;
    downward_api = Option.map (λ d. record { default_mode = d.default_mode }) s.downward_api;
  })

unfoldable pub build_projections :
    Text → ℕ → List VolumeProjection → Result (List VolumeProjectionModel)
build_projections name i [] = ok []
build_projections name i (s ∷ ss) = do
  m ← build_projection name i s
  ms ← build_projections name (suc i) ss
  ok (m ∷ ms)

unfoldable pub build_projected : ProjectedVolume → Result VolumeModel
unfolding validate
build_projected v = do
  validate v.base_volume
  sources ← build_projections v.name 0 v.sources
  ok (record (volume_named v.name) {
    projected = some (record { default_mode = v.default_mode; sources = sources });
  })
