-- ===== src/Build/Nodes.antt =====
-- What a container set keeps of its nodes.
use theo_forge.Prelude.{
  none, some, List, [], ◌∷◌, map, is_empty, errorf, ok, wrapping, ◌≡◌, refl, ap, arith, All,
  fail_if-eq-ok, >>=-eq-ok,
}
use theo_forge.Model.Containers.{ContainerModel}
use theo_forge.Model.Templates.{TemplateModel, fields}
use theo_forge.Build.Kinds.{ContainerNode, build_model, ContainerSet, build_container_set}
use theo_forge.Build.Shared.{build_inputs_from_params, build_outputs_from_params}

-- The containers of the set in a template.
abbrev pub containers_of : TemplateModel → List ContainerModel
containers_of t = elim (fields t).container_set [ none ↦ [] | some s ↦ s.containers ]

names-kept :
    (cs : List ContainerNode) → map (λ c. c.name) (map build_model cs) ≡ map (λ c. c.name) cs
unfolding build_model
names-kept [] = refl
names-kept (c ∷ cs) = ap (λ l. c.name ∷ l) (names-kept cs)

dependencies-dropped :
    (cs : List ContainerNode) → All (λ c. c.dependencies ≡ []) (map build_model cs)
unfolding build_model
dependencies-dropped [] = tt
dependencies-dropped (c ∷ cs) = (refl, dependencies-dropped cs)

-- A container set that builds has the containers of its nodes, by name and in order, but none of them
-- has a dependency, whatever the dependencies of the nodes are.
pub build_container_set-dependencies :
    (cs : ContainerSet) {m : TemplateModel}
    → build_container_set cs ≡ ok m
    → (map (λ c. c.name) (containers_of m) ≡ map (λ c. c.name) cs.containers)
      × All (λ c. c.dependencies ≡ []) (containers_of m)
unfolding build_container_set
build_container_set-dependencies cs {m} h =
    let (_, h1) =
      fail_if-eq-ok (is_empty cs.name) (errorf "container set template name cannot be empty" []) _
        h in
    let (_, h2) =
      fail_if-eq-ok (is_empty cs.containers)
        (errorf "container set must have at least one container" []) _ h1 in
    let (inputs, _, h3) =
      >>=-eq-ok
        (wrapping "container set %q: %w" (cs.name ∷ []) (build_inputs_from_params cs.inputs [])) _
        h2 in
    let (outputs, _, h4) =
      >>=-eq-ok
        (wrapping "container set %q: %w" (cs.name ∷ []) (build_outputs_from_params cs.outputs [])) _
        h3 in
    let same : containers_of m ≡ map build_model cs.containers = ground arith in
    rw same (names-kept cs.containers, dependencies-dropped cs.containers)
