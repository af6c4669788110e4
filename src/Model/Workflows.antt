-- ===== src/Model/Workflows.antt =====
-- model/workflow.go, model/cron.go and model/status.go: the resources that the builders produce.
use theo_forge.Prelude.{Bool, Text, Option, List}
use theo_forge.Int.{ℤ}
use theo_forge.Model.Basic.{
  StringMap, Toleration, ImagePullSecret, MetricsModel, MetadataModel, RetryStrategyModel,
  SynchronizationModel,
}
use theo_forge.Model.Artifacts.{ArgumentsModel, OutputsModel}
use theo_forge.Model.Volumes.{VolumeModel, PvcModel}
use theo_forge.Model.Containers.{Affinity, LabelSelector, IntOrString}
use theo_forge.Model.Templates.{TemplateModel, LifecycleHook}

pub record WorkflowMetadata : Type 0 where
  pub name : Text
  pub generate_name : Text
  pub namespace : Text
  pub labels : StringMap
  pub annotations : StringMap

pub record DnsConfigOption : Type 0 where
  pub name : Text
  pub value : Option Text

pub record DnsConfig : Type 0 where
  pub nameservers : List Text
  pub searches : List Text
  pub options : List DnsConfigOption

pub record PodDisruptionBudget : Type 0 where
  pub min_available : Option IntOrString
  pub max_unavailable : Option IntOrString

pub record PodSecurityContext : Type 0 where
  pub run_as_user : Option ℤ
  pub run_as_group : Option ℤ
  pub run_as_non_root : Option Bool
  pub fs_group : Option ℤ
  pub supplemental_groups : List ℤ

pub record WorkflowTemplateRef : Type 0 where
  pub name : Text
  pub cluster_scope : Bool

pub record WorkflowLevelMetadata : Type 0 where
  pub labels : StringMap
  pub annotations : StringMap
  pub labels_from : StringMap

pub record ArtifactGcStrategy : Type 0 where
  pub strategy : Text
  pub service_account_name : Text
  pub pod_spec_patch : Text
  pub force_finalizer_removal : Bool

pub record ArtifactRepositoryRef : Type 0 where
  pub config_map : Text
  pub key : Text

pub record TemplateDefaults : Type 0 where
  pub timeout : Text
  pub retry_strategy : Option RetryStrategyModel
  pub active_deadline_seconds : Option ℤ
  pub service_account_name : Text
  pub metadata : Option MetadataModel

pub record TtlStrategy : Type 0 where
  pub seconds_after_completion : Option ℤ
  pub seconds_after_success : Option ℤ
  pub seconds_after_failure : Option ℤ

pub record PodGc : Type 0 where
  pub strategy : Text
  pub label_selector : Option LabelSelector
  pub delete_delay_duration : Text

pub record WorkflowSpec : Type 0 where
  pub entrypoint : Text
  pub templates : List TemplateModel
  pub arguments : Option ArgumentsModel
  pub volumes : List VolumeModel
  pub volume_claim_templates : List PvcModel
  pub service_account_name : Text
  pub parallelism : Option ℤ
  pub active_deadline_seconds : Option ℤ
  pub node_selector : StringMap
  pub tolerations : List Toleration
  pub suspend : Option Bool
  pub host_network : Option Bool
  pub ttl_strategy : Option TtlStrategy
  pub pod_gc : Option PodGc
  pub priority : Option ℤ
  pub on_exit : Text
  pub metrics : Option MetricsModel
  pub archive_logs : Option Bool
  pub retry_strategy : Option RetryStrategyModel
  pub image_pull_secrets : List ImagePullSecret
  pub pod_spec_patch : Text
  pub synchronization : Option SynchronizationModel
  pub hooks : List (Text × LifecycleHook)
  pub dns_config : Option DnsConfig
  pub dns_policy : Text
  pub pod_disruption_budget : Option PodDisruptionBudget
  pub pod_metadata : Option MetadataModel
  pub security_context : Option PodSecurityContext
  pub affinity : Option Affinity
  pub automount_service_account_token : Option Bool
  pub workflow_metadata : Option WorkflowLevelMetadata
  pub workflow_template_ref : Option WorkflowTemplateRef
  pub artifact_gc : Option ArtifactGcStrategy
  pub artifact_repository_ref : Option ArtifactRepositoryRef
  pub template_defaults : Option TemplateDefaults
  pub shutdown : Text

pub record NodeStatus : Type 0 where
  pub id : Text
  pub name : Text
  pub display_name : Text
  pub type : Text
  pub phase : Text
  pub started_at : Text
  pub finished_at : Text
  pub message : Text
  pub outputs : Option OutputsModel
  pub children : List Text
  pub template_name : Text

pub record WorkflowStatusDetail : Type 0 where
  pub phase : Text
  pub started_at : Text
  pub finished_at : Text
  pub message : Text
  pub nodes : List (Text × NodeStatus)
  pub outputs : Option OutputsModel

pub record WorkflowModel : Type 0 where
  pub api_version : Text
  pub kind : Text
  pub metadata : WorkflowMetadata
  pub spec : WorkflowSpec
  pub status : Option WorkflowStatusDetail

pub record WorkflowTemplateModel : Type 0 where
  pub api_version : Text
  pub kind : Text
  pub metadata : WorkflowMetadata
  pub spec : WorkflowSpec

pub record StopStrategy : Type 0 where
  pub expression : Text

pub record CronWorkflowSpec : Type 0 where
  pub schedule : Text
  pub schedules : List Text
  pub timezone : Text
  pub when : Text
  pub suspend : Option Bool
  pub concurrency_policy : Text
  pub starting_deadline_seconds : Option ℤ
  pub successful_jobs_history_limit : Option ℤ
  pub failed_jobs_history_limit : Option ℤ
  pub workflow_spec : WorkflowSpec
  pub workflow_metadata : Option WorkflowMetadata
  pub stop_strategy : Option StopStrategy

pub record CronWorkflowModel : Type 0 where
  pub api_version : Text
  pub kind : Text
  pub metadata : WorkflowMetadata
  pub spec : CronWorkflowSpec
