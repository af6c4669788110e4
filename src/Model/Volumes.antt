-- ===== src/Model/Volumes.antt =====
-- model/volume.go: the volumes of a pod, their mounts, and volume claims.
use theo_forge.Prelude.{Bool, Text, Option, none, List}
use theo_forge.Int.{ℤ}

pub record EmptyDirVolumeModel : Type 0 where
  pub medium : Text
  pub size_limit : Text

pub record HostPathVolumeModel : Type 0 where
  pub path : Text
  pub type : Text

pub record ConfigMapVolumeModel : Type 0 where
  pub name : Text
  pub default_mode : Option ℤ
  pub optional : Option Bool

pub record SecretVolumeModel : Type 0 where
  pub secret_name : Text
  pub default_mode : Option ℤ
  pub optional : Option Bool

pub record PersistentVolumeClaimVolRef : Type 0 where
  pub claim_name : Text
  pub read_only : Bool

pub record NfsVolumeModel : Type 0 where
  pub server : Text
  pub path : Text
  pub read_only : Bool

pub record DownwardApiVolumeModel : Type 0 where
  pub default_mode : Option ℤ

pub record ServiceAccountTokenProjectionModel : Type 0 where
  pub audience : Text
  pub expiration_seconds : Option ℤ
  pub path : Text

pub record VolumeProjectionModel : Type 0 where
  pub service_account_token : Option ServiceAccountTokenProjectionModel
  pub config_map : Option ConfigMapVolumeModel
  pub secret : Option SecretVolumeModel
  pub downward_api : Option DownwardApiVolumeModel

pub record ProjectedVolumeModel : Type 0 where
  pub default_mode : Option ℤ
  pub sources : List VolumeProjectionModel

pub record VolumeModel : Type 0 where
  pub name : Text
  pub empty_dir : Option EmptyDirVolumeModel
  pub host_path : Option HostPathVolumeModel
  pub config_map : Option ConfigMapVolumeModel
  pub secret : Option SecretVolumeModel
  pub persistent_volume_claim : Option PersistentVolumeClaimVolRef
  pub nfs : Option NfsVolumeModel
  pub downward_api : Option DownwardApiVolumeModel
  pub projected : Option ProjectedVolumeModel

pub record VolumeMountModel : Type 0 where
  pub name : Text
  pub mount_path : Text
  pub read_only : Bool
  pub sub_path : Text
  pub sub_path_expr : Text
  pub mount_propagation : Text

pub record PvcMetadata : Type 0 where
  pub name : Text

pub record PvcResourceRequest : Type 0 where
  pub storage : Text

pub record PvcResources : Type 0 where
  pub requests : PvcResourceRequest

pub record PvcSpec : Type 0 where
  pub access_modes : List Text
  pub storage_class_name : Text
  pub resources : PvcResources

pub record PvcModel : Type 0 where
  pub metadata : PvcMetadata
  pub spec : PvcSpec

-- `VolumeModel{Name: name}`
abbrev pub volume_named : Text → VolumeModel
volume_named n = record {
  name = n;
  empty_dir = none;
  host_path = none;
  config_map = none;
  secret = none;
  persistent_volume_claim = none;
  nfs = none;
  downward_api = none;
  projected = none;
}

-- `VolumeProjectionModel{}`
abbrev pub no_projection : VolumeProjectionModel
no_projection = record {
  service_account_token = none;
  config_map = none;
  secret = none;
  downward_api = none;
}
