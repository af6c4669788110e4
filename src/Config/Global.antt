-- ===== src/Config/Global.antt =====
-- config/config.go, config/redact.go and config_helpers.go: the configuration, its accessors, the
-- anonymous hooks, and the redaction of the token. A hook, which may change what its pointer refers
-- to, is a function to the new value. Each method uses the configuration under its mutex, in one step.
use theo_forge.Prelude.{
  Result, ok, err, Bool, true, not, ◌&&◌, Text, text, Option, none, some, List, [], ◌∷◌, ◌++◌, ◌==◌,
  is_empty, if◌then◌else◌, Error, redacted_token_loaded,
}
use theo_forge.Model.Templates.{TemplateModel, template, TemplateFields}
use theo_forge.Model.Containers.{ContainerModel, ScriptModel}
use theo_forge.Model.Workflows.{WorkflowModel, WorkflowTemplateModel, CronWorkflowModel}

-- A fallible hook with its identity.
pub record NamedHook (A : Type 0) : Type 0 where
  pub id : Text
  pub fn : A → A × Option Error

pub record GlobalConfig : Type 0 where
  pub host : Text
  pub token : Text
  pub namespace : Text
  pub image : Text
  pub service_account_name : Text
  pub image_pull_policy : Text
  pub verify_ssl : Bool
  pub template_hooks : List (TemplateModel → TemplateModel)
  pub workflow_hooks : List (WorkflowModel → WorkflowModel)
  pub workflow_template_hooks : List (WorkflowTemplateModel → WorkflowTemplateModel)
  pub cron_workflow_hooks : List (CronWorkflowModel → CronWorkflowModel)
  pub named_template_hooks : List (NamedHook TemplateModel)
  pub named_workflow_hooks : List (NamedHook WorkflowModel)

abbrev pub default_image : Text
default_image = text "python:3.11"

-- `New()`, and the initial value of the singleton.
abbrev pub new : GlobalConfig
new = record {
  host = [];
  token = [];
  namespace = [];
  image = default_image;
  service_account_name = [];
  image_pull_policy = [];
  verify_ssl = true;
  template_hooks = [];
  workflow_hooks = [];
  workflow_template_hooks = [];
  cron_workflow_hooks = [];
  named_template_hooks = [];
  named_workflow_hooks = [];
}

-- `resolveConfig`: the explicit configuration, or the singleton.
unfoldable pub resolve_config : GlobalConfig → Option GlobalConfig → GlobalConfig
resolve_config global none = global
resolve_config global (some explicit) = explicit

unfoldable pub set_image : GlobalConfig → Text → GlobalConfig
set_image g image = record g { image = image }

unfoldable pub get_image : GlobalConfig → Text
get_image g = if is_empty g.image then default_image else g.image

unfoldable pub set_namespace : GlobalConfig → Text → GlobalConfig
set_namespace g namespace = record g { namespace = namespace }

unfoldable pub set_host : GlobalConfig → Text → GlobalConfig
set_host g host = record g { host = host }

unfoldable pub set_token : GlobalConfig → Text → GlobalConfig
set_token g token = record g { token = token }

unfoldable pub set_service_account_name : GlobalConfig → Text → GlobalConfig
set_service_account_name g name = record g { service_account_name = name }

unfoldable pub set_image_pull_policy : GlobalConfig → Text → GlobalConfig
set_image_pull_policy g p = record g { image_pull_policy = p }

unfoldable pub set_verify_ssl : GlobalConfig → Bool → GlobalConfig
set_verify_ssl g v = record g { verify_ssl = v }

unfoldable pub register_template_hook :
    GlobalConfig → (TemplateModel → TemplateModel) → GlobalConfig
register_template_hook g hook = record g { template_hooks = g.template_hooks ++ hook ∷ [] }

unfoldable pub register_workflow_hook :
    GlobalConfig → (WorkflowModel → WorkflowModel) → GlobalConfig
register_workflow_hook g hook = record g { workflow_hooks = g.workflow_hooks ++ hook ∷ [] }

unfoldable pub register_workflow_template_hook :
    GlobalConfig → (WorkflowTemplateModel → WorkflowTemplateModel) → GlobalConfig
register_workflow_template_hook g hook = record g {
  workflow_template_hooks = g.workflow_template_hooks ++ hook ∷ [];
}

unfoldable pub register_cron_workflow_hook :
    GlobalConfig → (CronWorkflowModel → CronWorkflowModel) → GlobalConfig
register_cron_workflow_hook g hook = record g {
  cron_workflow_hooks = g.cron_workflow_hooks ++ hook ∷ [];
}

-- `for _, hook := range hooks { hook(m) }`
unfoldable pub run_hooks {ℓ} : {A : Type ℓ} → List (A → A) → A → A
run_hooks [] m = m
run_hooks (hook ∷ hooks) m = run_hooks hooks (hook m)

unfoldable pub dispatch_template_hooks : GlobalConfig → TemplateModel → TemplateModel
dispatch_template_hooks g tpl = run_hooks g.template_hooks tpl

unfoldable pub dispatch_workflow_hooks : GlobalConfig → WorkflowModel → WorkflowModel
dispatch_workflow_hooks g wf = run_hooks g.workflow_hooks wf

unfoldable pub dispatch_workflow_template_hooks :
    GlobalConfig → WorkflowTemplateModel → WorkflowTemplateModel
dispatch_workflow_template_hooks g wt = run_hooks g.workflow_template_hooks wt

unfoldable pub dispatch_cron_workflow_hooks : GlobalConfig → CronWorkflowModel → CronWorkflowModel
dispatch_cron_workflow_hooks g cw = run_hooks g.cron_workflow_hooks cw

unfoldable pub clear_hooks : GlobalConfig → GlobalConfig
clear_hooks g = record g {
  template_hooks = [];
  workflow_hooks = [];
  workflow_template_hooks = [];
  cron_workflow_hooks = [];
  named_template_hooks = [];
  named_workflow_hooks = [];
}

unfoldable pub reset : GlobalConfig → GlobalConfig
reset g = record g {
  host = [];
  token = [];
  namespace = [];
  image = text "python:3.11";
  service_account_name = [];
  image_pull_policy = [];
  verify_ssl = true;
  template_hooks = [];
  workflow_hooks = [];
  workflow_template_hooks = [];
  cron_workflow_hooks = [];
  named_template_hooks = [];
  named_workflow_hooks = [];
}

-- `if field == "" && value != "" { field = value }`
abbrev pub or_default : Text → Text → Text
or_default field value = if is_empty field && not (is_empty value) then value else field

unfoldable pub default_container : GlobalConfig → ContainerModel → ContainerModel
default_container g c = record c {
  image = or_default c.image g.image;
  image_pull_policy = or_default c.image_pull_policy g.image_pull_policy;
}

unfoldable pub default_script : GlobalConfig → ScriptModel → ScriptModel
default_script g s = record s {
  image = or_default s.image g.image;
  image_pull_policy = or_default s.image_pull_policy g.image_pull_policy;
}

unfoldable pub default_fields : GlobalConfig → TemplateFields → TemplateFields
default_fields g t = record t {
  container = elim t.container [ none ↦ none | some c ↦ some (default_container g c) ];
  script = elim t.script [ none ↦ none | some s ↦ some (default_script g s) ];
  service_account_name = or_default t.service_account_name g.service_account_name;
}

unfoldable pub apply_template_defaults : GlobalConfig → TemplateModel → TemplateModel
apply_template_defaults g (template f d s) = template (default_fields g f) d s

abbrev pub redacted_token_placeholder : Text
redacted_token_placeholder = text "***"

-- What `String()` prints after "GlobalConfig", field by field.
pub record Printed : Type 0 where
  pub host : Text
  pub token : Text
  pub namespace : Text
  pub image : Text
  pub service_account_name : Text
  pub image_pull_policy : Text
  pub verify_ssl : Bool

-- The shape on the wire.
pub record GlobalConfigJson : Type 0 where
  pub host : Text
  pub token : Text
  pub namespace : Text
  pub image : Text
  pub service_account_name : Text
  pub image_pull_policy : Text
  pub verify_ssl : Bool

unfoldable pub string : GlobalConfig → Printed
string g = record {
  host = g.host;
  token = if is_empty g.token then text "<empty>" else redacted_token_placeholder;
  namespace = g.namespace;
  image = g.image;
  service_account_name = g.service_account_name;
  image_pull_policy = g.image_pull_policy;
  verify_ssl = g.verify_ssl;
}

-- `json.Marshal` of that shape, and `json.Unmarshal` into it.
pub record ConfigCodec : Type 0 where
  pub marshal : GlobalConfigJson → Result Text
  pub unmarshal : Text → Result GlobalConfigJson

-- The value that `MarshalJSON` hands to the encoder.
unfoldable pub on_wire : GlobalConfig → GlobalConfigJson
on_wire g = record {
  host = g.host;
  token = if is_empty g.token then g.token else redacted_token_placeholder;
  namespace = g.namespace;
  image = g.image;
  service_account_name = g.service_account_name;
  image_pull_policy = g.image_pull_policy;
  verify_ssl = g.verify_ssl;
}

unfoldable pub marshal_json : ConfigCodec → Option GlobalConfig → Result Text
marshal_json codec none = ok (text "null")
marshal_json codec (some g) = codec.marshal (on_wire g)

-- `UnmarshalJSON` after the decoder has filled `raw`: the new state, and the error.
unfoldable pub load : GlobalConfig → GlobalConfigJson → GlobalConfig × Option Error
load g raw = if raw.token == redacted_token_placeholder then (g, some redacted_token_loaded) else (
  record g {
    host = raw.host;
    token = raw.token;
    namespace = raw.namespace;
    image = raw.image;
    service_account_name = raw.service_account_name;
    image_pull_policy = raw.image_pull_policy;
    verify_ssl = raw.verify_ssl;
  },
  none,
)

unfoldable pub unmarshal_json : ConfigCodec → GlobalConfig → Text → GlobalConfig × Option Error
unmarshal_json codec g data_ = elim (codec.unmarshal data_) [
  | err e ↦ (g, some e)
  | ok raw ↦ load g raw
]
