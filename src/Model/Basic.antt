-- ===== src/Model/Basic.antt =====
-- model/types.go, model/parameter.go, model/retry.go, model/metrics.go, model/env.go,
-- model/int_or_string.go and the small types of model/dag.go and model/workflow.go. A pointer is an
-- `Option`, a map is the list of its entries, and a nil slice or map is the empty list.
use theo_forge.Prelude.{Bool, Text, Option, none, List, []}
use theo_forge.Int.{ℤ}

abbrev pub StringMap : Type 0
StringMap = List (Text × Text)

pub record ResourceList : Type 0 where
  pub cpu : Text
  pub memory : Text
  pub ephemeral_storage : Text

pub record ResourceRequirements : Type 0 where
  pub requests : ResourceList
  pub limits : ResourceList

pub record Toleration : Type 0 where
  pub key : Text
  pub operator : Text
  pub value : Text
  pub effect : Text

pub record ContainerPort : Type 0 where
  pub name : Text
  pub container_port : ℤ
  pub protocol : Text

pub record ImagePullSecret : Type 0 where
  pub name : Text

pub record SecretKeySelector : Type 0 where
  pub name : Text
  pub key : Text

pub record ConfigMapKeyRef : Type 0 where
  pub name : Text
  pub key : Text

pub record ValueFrom : Type 0 where
  pub path : Text
  pub expression : Text
  pub json_path : Text
  pub jq_filter : Text
  pub parameter : Text
  pub config_map_key_ref : Option ConfigMapKeyRef
  pub default : Option Text

pub record ParameterModel : Type 0 where
  pub name : Text
  pub value : Option Text
  pub default : Option Text
  pub description : Text
  pub enum : List Text
  pub global_name : Text
  pub value_from : Option ValueFrom

pub record KeySelector : Type 0 where
  pub name : Text
  pub key : Text
  pub optional : Option Bool

pub record FieldSelector : Type 0 where
  pub field_path : Text
  pub api_version : Text

pub record ResourceFieldSelector : Type 0 where
  pub resource : Text
  pub container_name : Text
  pub divisor : Text

pub record EnvVarSource : Type 0 where
  pub secret_key_ref : Option KeySelector
  pub config_map_key_ref : Option KeySelector
  pub field_ref : Option FieldSelector
  pub resource_field_ref : Option ResourceFieldSelector

pub record EnvVarModel : Type 0 where
  pub name : Text
  pub value : Option Text
  pub value_from : Option EnvVarSource

pub record Label : Type 0 where
  pub key : Text
  pub value : Text

pub record Counter : Type 0 where
  pub value : Text

pub record Gauge : Type 0 where
  pub value : Text
  pub realtime : Option Bool

pub record TemplateRef : Type 0 where
  pub name : Text
  pub template : Text
  pub cluster_scope : Bool

pub record ContinueOn : Type 0 where
  pub error : Bool
  pub failed : Bool

pub record Sequence : Type 0 where
  pub count : Text
  pub start : Text
  pub end : Text
  pub format : Text

pub record MutexModel : Type 0 where
  pub name : Text
  pub namespace : Text
  pub database : Option Bool

pub record SemaphoreDbRef : Type 0 where
  pub key : Text

pub record SemaphoreModel : Type 0 where
  pub config_map_key_ref : Option ConfigMapKeyRef
  pub database : Option SemaphoreDbRef

pub record SynchronizationModel : Type 0 where
  pub mutex : Option MutexModel
  pub semaphore : Option SemaphoreModel
  pub mutexes : List MutexModel
  pub semaphores : List SemaphoreModel

pub record CacheModel : Type 0 where
  pub config_map : Option ConfigMapKeyRef

pub record MemoizeModel : Type 0 where
  pub key : Text
  pub max_age : Text
  pub cache : Option CacheModel

pub record MetadataModel : Type 0 where
  pub labels : StringMap
  pub annotations : StringMap

-- An `interface{}` value. A float64 is its shortest decimal text, which stands for that value alone and
-- which `strconv.FormatFloat(f, 'g', -1, 64)` gives.
pub data Any : Type 0 where
  nil : Any
  bool : Bool → Any
  int int_ptr : ℤ → Any
  float float_ptr : Text → Any
  str : Text → Any

pub record Histogram : Type 0 where
  pub value : Text
  pub buckets : List Text

pub record Metric : Type 0 where
  pub name : Text
  pub help : Text
  pub labels : List Label
  pub when : Text
  pub counter : Option Counter
  pub gauge : Option Gauge
  pub histogram : Option Histogram

pub record MetricsModel : Type 0 where
  pub prometheus : List Metric

pub record Backoff : Type 0 where
  pub duration : Text
  pub factor : Any
  pub max_duration : Text
  pub cap : Text

pub record RetryStrategyModel : Type 0 where
  pub limit : Any
  pub retry_policy : Text
  pub backoff : Option Backoff
  pub expression : Text

-- `ParameterModel{Name: name}`
abbrev pub parameter_named : Text → ParameterModel
parameter_named n = record {
  name = n;
  value = none;
  default = none;
  description = [];
  enum = [];
  global_name = [];
  value_from = none;
}

-- `EnvVarSource{}`
abbrev pub no_source : EnvVarSource
no_source = record {
  secret_key_ref = none;
  config_map_key_ref = none;
  field_ref = none;
  resource_field_ref = none;
}
