-- ===== src/Model/Templates.antt =====
-- TemplateModel of model/template.go, with the DAG of model/dag.go and the steps of model/steps.go. A
-- task or a step may hold a whole template inline, so the types are declared together: the fields of a
-- template, a task or a step that do not lead back to a template are a record of their own.
use theo_forge.Prelude.{Bool, Text, Option, none, List, [], ◌∷◌}
use theo_forge.Int.{ℤ}
use theo_forge.Model.Basic.{
  StringMap, Any, TemplateRef, ContinueOn, Sequence, MetadataModel, RetryStrategyModel,
  MetricsModel, Toleration, MemoizeModel, SynchronizationModel,
}
use theo_forge.Model.Artifacts.{
  ArgumentsModel, InputsModel, OutputsModel, ManifestFrom, ArtifactLocation, DataModel, HttpHeader,
}
use theo_forge.Model.Volumes.{VolumeModel}
use theo_forge.Model.Containers.{ContainerModel, ScriptModel, ContainerSetModel, Affinity}

pub record LifecycleHook : Type 0 where
  pub template : Text
  pub template_ref : Option TemplateRef
  pub arguments : Option ArgumentsModel
  pub expression : Text

pub record SuspendModel : Type 0 where
  pub duration : Text

pub record ResourceTplModel : Type 0 where
  pub action : Text
  pub manifest : Text
  pub success_condition : Text
  pub failure_condition : Text
  pub flags : List Text
  pub set_owner_reference : Option Bool
  pub merge_strategy : Text
  pub manifest_from : Option ManifestFrom

pub record HttpModel : Type 0 where
  pub url : Text
  pub method : Text
  pub headers : List HttpHeader
  pub body : Text
  pub success_condition : Text
  pub timeout_seconds : Option ℤ

pub record TemplateFields : Type 0 where
  pub name : Text
  pub container : Option ContainerModel
  pub script : Option ScriptModel
  pub resource : Option ResourceTplModel
  pub suspend : Option SuspendModel
  pub http : Option HttpModel
  pub container_set : Option ContainerSetModel
  pub data_template : Option DataModel
  pub inputs : Option InputsModel
  pub outputs : Option OutputsModel
  pub metadata : Option MetadataModel
  pub timeout : Text
  pub active_deadline_seconds : Option ℤ
  pub retry_strategy : Option RetryStrategyModel
  pub parallelism : Option ℤ
  pub fail_fast : Option Bool
  pub service_account_name : Text
  pub volumes : List VolumeModel
  pub metrics : Option MetricsModel
  pub node_selector : StringMap
  pub tolerations : List Toleration
  pub init_containers : List ContainerModel
  pub sidecars : List ContainerModel
  pub daemon : Option Bool
  pub memoize : Option MemoizeModel
  pub synchronization : Option SynchronizationModel
  pub affinity : Option Affinity
  pub pod_spec_patch : Text
  pub hooks : List (Text × LifecycleHook)
  pub archive_location : Option ArtifactLocation
  pub labels : StringMap
  pub annotations : StringMap

pub record DagTaskFields : Type 0 where
  pub name : Text
  pub template : Text
  pub template_ref : Option TemplateRef
  pub dependencies : List Text
  pub depends : Text
  pub arguments : Option ArgumentsModel
  pub when : Text
  pub continue_on : Option ContinueOn
  pub with_items : List Any
  pub with_param : Text
  pub with_sequence : Option Sequence
  pub on_exit : Text
  pub hooks : List (Text × LifecycleHook)

pub record StepFields : Type 0 where
  pub name : Text
  pub template : Text
  pub template_ref : Option TemplateRef
  pub arguments : Option ArgumentsModel
  pub when : Text
  pub continue_on : Option ContinueOn
  pub with_items : List Any
  pub with_param : Text
  pub with_sequence : Option Sequence
  pub on_exit : Text
  pub hooks : List (Text × LifecycleHook)

mutual
  -- The fields, the DAG and the step groups of a template.
  pub data TemplateModel : Type 0 where
    template : TemplateFields → DagModel → StepGroups → TemplateModel

  -- `Inline *TemplateModel`
  pub data Inline : Type 0 where
    no_inline : Inline
    inline : TemplateModel → Inline

  -- `DAG *DAGModel`: the tasks, FailFast and Target
  pub data DagModel : Type 0 where
    no_dag : DagModel
    dag : DagTasks → Option Bool → Text → DagModel

  pub data DagTasks : Type 0 where
    no_tasks : DagTasks
    task : DagTaskFields → Inline → DagTasks → DagTasks

  pub data StepGroup : Type 0 where
    no_steps : StepGroup
    step : StepFields → Inline → StepGroup → StepGroup

  pub data StepGroups : Type 0 where
    no_groups : StepGroups
    group : StepGroup → StepGroups → StepGroups

abbrev pub fields : TemplateModel → TemplateFields
fields (template f d g) = f

abbrev pub dag_of : TemplateModel → DagModel
dag_of (template f d g) = d

abbrev pub steps_of : TemplateModel → StepGroups
steps_of (template f d g) = g

-- The names of the tasks, in order.
abbrev pub task_names : DagTasks → List Text
task_names no_tasks = []
task_names (task f i ts) = f.name ∷ task_names ts

abbrev pub step_names : StepGroup → List Text
step_names no_steps = []
step_names (step f i ss) = f.name ∷ step_names ss

abbrev pub group_names : StepGroups → List (List Text)
group_names no_groups = []
group_names (group g gs) = step_names g ∷ group_names gs

-- `TemplateModel{Name: name}`, less the DAG and the steps
abbrev pub fields_named : Text → TemplateFields
fields_named n = record {
  name = n;
  container = none;
  script = none;
  resource = none;
  suspend = none;
  http = none;
  container_set = none;
  data_template = none;
  inputs = none;
  outputs = none;
  metadata = none;
  timeout = [];
  active_deadline_seconds = none;
  retry_strategy = none;
  parallelism = none;
  fail_fast = none;
  service_account_name = [];
  volumes = [];
  metrics = none;
  node_selector = [];
  tolerations = [];
  init_containers = [];
  sidecars = [];
  daemon = none;
  memoize = none;
  synchronization = none;
  affinity = none;
  pod_spec_patch = [];
  hooks = [];
  archive_location = none;
  labels = [];
  annotations = [];
}
