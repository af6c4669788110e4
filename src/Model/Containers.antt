-- ===== src/Model/Containers.antt =====
-- The containers of model/template.go, and the pod affinity of model/affinity.go.
use theo_forge.Prelude.{Bool, Text, Option, List}
use theo_forge.Int.{ℤ}
use theo_forge.Model.Basic.{StringMap, EnvVarModel, ResourceRequirements, ContainerPort}
use theo_forge.Model.Volumes.{VolumeMountModel}

pub record SeccompProfile : Type 0 where
  pub type : Text
  pub localhost_profile : Text

pub record Capabilities : Type 0 where
  pub add : List Text
  pub drop : List Text

pub record SecurityContext : Type 0 where
  pub run_as_user : Option ℤ
  pub run_as_group : Option ℤ
  pub run_as_non_root : Option Bool
  pub privileged : Option Bool
  pub read_only_root_filesystem : Option Bool
  pub allow_privilege_escalation : Option Bool
  pub seccomp_profile : Option SeccompProfile
  pub capabilities : Option Capabilities

pub record ExecAction : Type 0 where
  pub command : List Text

pub record LifecycleHandler : Type 0 where
  pub exec : Option ExecAction

pub record Lifecycle : Type 0 where
  pub pre_stop : Option LifecycleHandler

pub record IntOrString : Type 0 where
  pub is_string : Bool
  pub int_val : ℤ
  pub str_val : Text

pub record HttpGetAction : Type 0 where
  pub path : Text
  pub port : IntOrString
  pub scheme : Text

pub record TcpSocketAction : Type 0 where
  pub port : IntOrString

pub record Probe : Type 0 where
  pub http_get : Option HttpGetAction
  pub tcp_socket : Option TcpSocketAction
  pub exec : Option ExecAction
  pub initial_delay_seconds : Option ℤ
  pub period_seconds : Option ℤ
  pub success_threshold : Option ℤ
  pub failure_threshold : Option ℤ
  pub timeout_seconds : Option ℤ

pub record ConfigMapEnvSource : Type 0 where
  pub name : Text
  pub optional : Option Bool

pub record SecretEnvSource : Type 0 where
  pub name : Text
  pub optional : Option Bool

pub record EnvFromSource : Type 0 where
  pub config_map_ref : Option ConfigMapEnvSource
  pub secret_ref : Option SecretEnvSource
  pub prefix : Text

pub record ContainerModel : Type 0 where
  pub name : Text
  pub image : Text
  pub command : List Text
  pub args : List Text
  pub working_dir : Text
  pub env : List EnvVarModel
  pub env_from : List EnvFromSource
  pub resources : Option ResourceRequirements
  pub volume_mounts : List VolumeMountModel
  pub image_pull_policy : Text
  pub ports : List ContainerPort
  pub security_context : Option SecurityContext
  pub stdin : Option Bool
  pub mirror : Option Bool
  pub lifecycle : Option Lifecycle
  pub readiness_probe : Option Probe
  pub liveness_probe : Option Probe
  pub dependencies : List Text

pub record ScriptModel : Type 0 where
  pub image : Text
  pub command : List Text
  pub args : List Text
  pub source : Text
  pub working_dir : Text
  pub env : List EnvVarModel
  pub env_from : List EnvFromSource
  pub resources : Option ResourceRequirements
  pub volume_mounts : List VolumeMountModel
  pub image_pull_policy : Text
  pub ports : List ContainerPort
  pub security_context : Option SecurityContext
  pub readiness_probe : Option Probe
  pub liveness_probe : Option Probe

pub record ContainerSetModel : Type 0 where
  pub containers : List ContainerModel
  pub volume_mounts : List VolumeMountModel

pub record LabelSelectorRequirement : Type 0 where
  pub key : Text
  pub operator : Text
  pub values : List Text

pub record LabelSelector : Type 0 where
  pub match_labels : StringMap
  pub match_expressions : List LabelSelectorRequirement

pub record PodAffinityTerm : Type 0 where
  pub label_selector : Option LabelSelector
  pub topology_key : Text
  pub namespaces : List Text

pub record WeightedPodAffinityTerm : Type 0 where
  pub weight : ℤ
  pub pod_affinity_term : PodAffinityTerm

pub record PodAffinity : Type 0 where
  pub required : List PodAffinityTerm
  pub preferred : List WeightedPodAffinityTerm

pub record PodAntiAffinity : Type 0 where
  pub required : List PodAffinityTerm
  pub preferred : List WeightedPodAffinityTerm

pub record NodeSelectorRequirement : Type 0 where
  pub key : Text
  pub operator : Text
  pub values : List Text

pub record NodeSelectorTerm : Type 0 where
  pub match_expressions : List NodeSelectorRequirement
  pub match_fields : List NodeSelectorRequirement

pub record NodeSelector : Type 0 where
  pub node_selector_terms : List NodeSelectorTerm

pub record PreferredSchedulingTerm : Type 0 where
  pub weight : ℤ
  pub preference : NodeSelectorTerm

pub record NodeAffinity : Type 0 where
  pub required : Option NodeSelector
  pub preferred : List PreferredSchedulingTerm

pub record Affinity : Type 0 where
  pub node_affinity : Option NodeAffinity
  pub pod_affinity : Option PodAffinity
  pub pod_anti_affinity : Option PodAntiAffinity
