-- ===== src/Workflow/Filled.antt =====
-- The model that `Build` of workflow.go fills in, before the hooks, field by field.
use theo_forge.Prelude.{
  Text, text, Option, none, some, List, [], ◌∷◌, map, is_empty, ◌≡◌, ◌≢◌, refl, sym, ◌⊎◌, inl, inr,
  arith, if◌then◌else◌,
}
use theo_forge.Model.Basic.{Metric, MetricsModel, RetryStrategyModel}
use theo_forge.Model.Artifacts.{ArgumentsModel}
use theo_forge.Model.Volumes.{VolumeModel, PvcModel}
use theo_forge.Model.Containers.{Affinity}
use theo_forge.Model.Templates.{TemplateModel}
use theo_forge.Model.Workflows.{WorkflowModel}
use theo_forge.Build.Shared.{build_retry_strategy}
use theo_forge.Config.Filling.{Filled, Both}
use theo_forge.Workflow.Naming.{
  IsValid, Chooses, resolve_affinity-Chooses, Chooses-resolve_affinity,
}
use theo_forge.Workflow.Resource.{Workflow, workflow_model, build_metrics, build_image_pull_secrets}

-- The metrics, if there are any.
abbrev pub AreMetrics : List Metric → Option MetricsModel → Type 0
AreMetrics metrics m =
    ((metrics ≡ []) × (m ≡ none)) ⊎ ((metrics ≢ []) × (m ≡ some (record { prometheus = metrics })))

-- The version and the kind are filled in, the affinity is chosen, and the other fields are those of the
-- workflow and the parts that have been built.
pub record WorkflowFilled (w : Workflow) (templates : List TemplateModel)
    (args : Option ArgumentsModel) (vols : List VolumeModel) (pvcs : List PvcModel)
    (m : WorkflowModel) : Type 0 where
  pub version : Text
  pub kind : Text
  pub affinity : Option Affinity
  pub metrics : Option MetricsModel
  pub retries : Option RetryStrategyModel
  pub with_version : Filled w.api_version (text "argoproj.io/v1alpha1") version
  pub with_kind : Filled w.kind (text "Workflow") kind
  pub with_affinity : Chooses w affinity
  pub with_metrics : AreMetrics w.metrics metrics
  pub with_retries : Both (λ rs m. build_retry_strategy rs ≡ m) w.retry_strategy retries
  pub fields : m ≡ record {
    api_version = version;
    kind = kind;
    metadata = record {
      name = w.name;
      generate_name = w.generate_name;
      namespace = w.namespace;
      labels = w.labels;
      annotations = w.annotations;
    };
    spec = record {
      entrypoint = w.entrypoint;
      templates = templates;
      arguments = args;
      volumes = vols;
      volume_claim_templates = pvcs;
      service_account_name = w.service_account_name;
      parallelism = w.parallelism;
      active_deadline_seconds = w.active_deadline_seconds;
      node_selector = w.node_selector;
      tolerations = w.tolerations;
      suspend = w.suspend;
      host_network = w.host_network;
      ttl_strategy = w.ttl_strategy;
      pod_gc = w.pod_gc;
      priority = w.priority;
      on_exit = w.on_exit;
      metrics = metrics;
      archive_logs = w.archive_logs;
      retry_strategy = retries;
      image_pull_secrets = map (λ s. record { name = s }) w.image_pull_secrets;
      pod_spec_patch = w.pod_spec_patch;
      synchronization = w.synchronization;
      hooks = w.hooks;
      dns_config = w.dns_config;
      dns_policy = w.dns_policy;
      pod_disruption_budget = w.pod_disruption_budget;
      pod_metadata = w.pod_metadata;
      security_context = w.security_context;
      affinity = affinity;
      automount_service_account_token = w.automount_service_account_token;
      workflow_metadata = none;
      workflow_template_ref = w.workflow_template_ref;
      artifact_gc = w.artifact_gc;
      artifact_repository_ref = w.artifact_repository_ref;
      template_defaults = w.template_defaults;
      shutdown = [];
    };
    status = none;
  }

-- `Version` and `Kind` are given where they are missing.
abbrev pub given : Text → Text → Text
given field value = if is_empty field then value else field

pub given-Filled : (field value : Text) → Filled field value (given field value)
given-Filled [] value = inr (refl, refl)
given-Filled (c ∷ field) value = inl (λ q. ground (arith, q), refl)

pub Filled-given :
    (field value result : Text) → Filled field value result → given field value ≡ result
Filled-given [] value result (inl (n, e)) = elim (n refl) [ ]
Filled-given [] value result (inr (n, e)) = sym e
Filled-given (c ∷ field) value result (inl (n, e)) = sym e
Filled-given (c ∷ field) value result (inr (n, e)) = ground (arith, n)

build_metrics-AreMetrics : (w : Workflow) → AreMetrics w.metrics (build_metrics w)
unfolding build_metrics
build_metrics-AreMetrics w = go w.metrics
  where
    go :
        (ms : List Metric)
        → AreMetrics ms (if is_empty ms then none else some (record { prometheus = ms }))
    go [] = inl (refl, refl)
    go (m ∷ ms) = inr (λ q. ground (arith, q), refl)

AreMetrics-build_metrics :
    (w : Workflow) (m : Option MetricsModel) → AreMetrics w.metrics m → build_metrics w ≡ m
unfolding build_metrics
AreMetrics-build_metrics w m a = go w.metrics m a
  where
    go :
        (ms : List Metric) (m : Option MetricsModel)
        → AreMetrics ms m
        → (if is_empty ms then none else some (record { prometheus = ms })) ≡ m
    go [] m (inl (n, e)) = sym e
    go [] m (inr (n, e)) = elim (n refl) [ ]
    go (x ∷ ms) m (inl (n, e)) = ground (arith, n)
    go (x ∷ ms) m (inr (n, e)) = sym e

retried :
    {A B : Type 0} (f : A → B) (o : Option A)
    → Both (λ a b. f a ≡ b) o (elim o [ none ↦ none | some a ↦ some (f a) ])
retried f none = tt
retried f (some a) = refl

retried_unique :
    {A B : Type 0} (f : A → B) (o : Option A) (p : Option B)
    → Both (λ a b. f a ≡ b) o p
    → (elim o [ none ↦ none | some a ↦ some (f a) ]) ≡ p
retried_unique f none none b = refl
retried_unique f none (some c) b = elim b [ ]
retried_unique f (some a) none b = elim b [ ]
retried_unique f (some a) (some c) b = rw b refl

pub workflow_model-WorkflowFilled :
    (w : Workflow) (templates : List TemplateModel) (args : Option ArgumentsModel)
    (vols : List VolumeModel) (pvcs : List PvcModel)
    → IsValid w
    → WorkflowFilled w templates args vols pvcs (workflow_model w templates args vols pvcs)
unfolding workflow_model build_image_pull_secrets
workflow_model-WorkflowFilled w templates args vols pvcs v = record {
  version = _;
  kind = _;
  affinity = _;
  metrics = _;
  retries = _;
  with_version = given-Filled w.api_version _;
  with_kind = given-Filled w.kind _;
  with_affinity = resolve_affinity-Chooses w v;
  with_metrics = build_metrics-AreMetrics w;
  with_retries = retried build_retry_strategy w.retry_strategy;
  fields = refl;
}

pub WorkflowFilled-workflow_model :
    (w : Workflow) (templates : List TemplateModel) (args : Option ArgumentsModel)
    (vols : List VolumeModel) (pvcs : List PvcModel) (m : WorkflowModel)
    → IsValid w
    → WorkflowFilled w templates args vols pvcs m
    → workflow_model w templates args vols pvcs ≡ m
unfolding workflow_model build_image_pull_secrets
WorkflowFilled-workflow_model w templates args vols pvcs m v f =
    rw
      (
        Filled-given w.api_version _ _ f.with_version,
        Filled-given w.kind _ _ f.with_kind,
        Chooses-resolve_affinity w f.affinity v f.with_affinity,
        AreMetrics-build_metrics w f.metrics f.with_metrics,
        retried_unique build_retry_strategy w.retry_strategy f.retries f.with_retries,
        f.fields,
      )
      refl
