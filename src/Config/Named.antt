-- ===== src/Config/Named.antt =====
-- config/named_hooks.go: hooks with a name, which can be removed and can fail. The code is written
-- twice, for templates and for workflows; the parts that both share are functions of the hook list.
use theo_forge.Prelude.{
  Bool, true, false, Text, Option, none, some, List, [], ◌∷◌, ◌++◌, map, ◌==◌, ◌||◌, is_empty,
  if◌then◌else◌, String, Error, errorf, wrap, Result, ok, err,
}
use theo_forge.Model.Templates.{TemplateModel}
use theo_forge.Model.Workflows.{WorkflowModel}
use theo_forge.Config.Global.{NamedHook, GlobalConfig}

module _ {A : Type 0} where
  -- `for _, h := range hooks { if h.ID == name { … } }`
  unfoldable pub registered : Text → List (NamedHook A) → Bool
  registered name [] = false
  registered name (h ∷ hs) = h.id == name || registered name hs

  unfoldable pub register :
      String
      → List (NamedHook A)
      → Text
      → Option (A → A × Option Error)
      → List (NamedHook A) × Result Text
  register duplicate hs name fn =
      if is_empty name
      then (hs, err (errorf "config: named hook requires a non-empty name" []))
      else elim fn [
        | none ↦ (hs, err (errorf "config: named hook %q requires a non-nil function" (name ∷ [])))
        | some f ↦
            if registered name hs
            then (hs, err (errorf duplicate (name ∷ [])))
            else (hs ++ record { id = name; fn = f } ∷ [], ok name)
      ]

  -- The hooks without the first one of that name, and whether there is one.
  unfoldable pub remove : Text → List (NamedHook A) → List (NamedHook A) × Bool
  remove id [] = ([], false)
  remove id (h ∷ hs) =
      let (rest, found) = remove id hs in if h.id == id then (hs, true) else (h ∷ rest, found)

  -- The first error ends the loop, and is wrapped with the name of its hook.
  unfoldable pub dispatch : String → List (NamedHook A) → A → A × Option Error
  dispatch format [] m = (m, none)
  dispatch format (h ∷ hs) m =
      let rest = dispatch format hs (h.fn m).0 in
      elim (h.fn m).1 [ none ↦ rest | some e ↦ ((h.fn m).0, some (wrap format (h.id ∷ []) e)) ]

  unfoldable pub list_ids : List (NamedHook A) → List Text
  list_ids hs = map (λ h. h.id) hs

unfoldable pub register_named_template_hook :
    GlobalConfig
    → Text
    → Option (TemplateModel → TemplateModel × Option Error)
    → GlobalConfig × Result Text
register_named_template_hook g name fn =
    let (hs, r) =
      register "config: template hook %q already registered" g.named_template_hooks name fn in
    (record g { named_template_hooks = hs }, r)

unfoldable pub remove_template_hook : GlobalConfig → Text → GlobalConfig × Bool
remove_template_hook g id =
    let (hs, found) = remove id g.named_template_hooks in
    (record g { named_template_hooks = hs }, found)

unfoldable pub dispatch_named_template_hooks :
    GlobalConfig → TemplateModel → TemplateModel × Option Error
dispatch_named_template_hooks g t = dispatch "template hook %q: %w" g.named_template_hooks t

unfoldable pub register_named_workflow_hook :
    GlobalConfig
    → Text
    → Option (WorkflowModel → WorkflowModel × Option Error)
    → GlobalConfig × Result Text
register_named_workflow_hook g name fn =
    let (hs, r) =
      register "config: workflow hook %q already registered" g.named_workflow_hooks name fn in
    (record g { named_workflow_hooks = hs }, r)

unfoldable pub remove_workflow_hook : GlobalConfig → Text → GlobalConfig × Bool
remove_workflow_hook g id =
    let (hs, found) = remove id g.named_workflow_hooks in
    (record g { named_workflow_hooks = hs }, found)

unfoldable pub dispatch_named_workflow_hooks :
    GlobalConfig → WorkflowModel → WorkflowModel × Option Error
dispatch_named_workflow_hooks g w = dispatch "workflow hook %q: %w" g.named_workflow_hooks w

unfoldable pub list_named_template_hooks : GlobalConfig → List Text
list_named_template_hooks g = list_ids g.named_template_hooks

unfoldable pub list_named_workflow_hooks : GlobalConfig → List Text
list_named_workflow_hooks g = list_ids g.named_workflow_hooks
