-- ===== src/Lib.antt =====
-- Verification of theo-forge, a Go library that builds Argo Workflows resources from typed values,
-- checks them, and hands them to a serializer.
--
-- The parts. A user fills builders: parameters (parameter.go), artifacts (artifact.go), variables
-- (env.go), volumes (volume.go), containers and scripts (container.go, base_template.go), DAGs (dag.go)
-- and steps (steps.go). Each template builder has `BuildTemplate`; the resources of workflow.go and
-- workflow_template.go call it for each of their templates in buildTemplateModels (build_helpers.go), which
-- applies the defaults of a configuration (config/config.go), checks the result (with validate/units.go)
-- and runs the hooks (config/config.go, config/named_hooks.go). The result is a value of package model.
--
-- The files.
--   Prelude: tests, lists, texts as lists of bytes, and Go's errors and results; Int: the integers.
--   Model: the types of model/*.go, a record for each struct, in files by subject; Numbers models
--     model/int_or_string.go and Reading is about it, Policies has ParseImagePullPolicy.
--   Build: Parameters, Artifacts, Env, Volumes, Containers model the files of these names; Interfaces has
--     the Go interfaces, each as a record of what its methods return; Shared has build_helpers.go, the
--     retry strategy of parameter.go and validateTemplateReference; References says when that accepts.
--   Dag: Task and Template model dag.go; Grammar is the grammar of dependency expressions, written
--     without reference to the code; Scan and Precedence relate the two; Nodes and Building are about names;
--     Refinement is about sequences of AddTask and AddTasks.
--   Steps: Template models steps.go, Nodes and Groups are about the names of the steps.
--   Units: Pattern has the two regular expressions of validate/units.go as matchers, Language what they
--     match, Resources the functions of the file, Laws what these accept and return.
--   Config: Global models config/config.go, config/redact.go and resolveConfig of config_helpers.go;
--     Named models config/named_hooks.go; Hooks, Dispatching, Filling, Defaults and
--     Redaction are about them, Passing about what the hooks make of a value.
--     Getters has what is read of a configuration. Locked has the named hooks under their mutex, with any
--     number of goroutines; its children Held, Loops, Fine and Moves are about single steps, Owners about
--     who has the mutex, Interleaved and Waiting about the whole.
--   Workflow: Pipeline has buildTemplateModels and validateBuiltTemplate of build_helpers.go; Affine and
--     Resource model affinity.go and workflow.go; Templates models workflow_template.go; Checked, Failing,
--     Naming, Arguments, Filled and Building are about the first three, CronFilled and Scheduling about the
--     cron workflow; Rendering has the
--     documents of the resources.
--   Build.Kinds models templates.go, and Build.Nodes is about its container sets; Build.Sources is
--     about projected volumes, Build.Retries about the limit of a retry strategy; Build.Presets has the
--     presets of types.go.
--   Client: Names models client/validation.go; Subdomain and Paths are about the names and the paths.
--     Logging models client/logger.go; Service, Transport and Requests model client/client.go up to
--     doRequest, Operations its operations and those of client/template_ops.go, Redaction
--     client/redact.go. Bounded is about the reading of responses, Answers about what doRequest returns,
--     Submission about CreateWorkflow of a Workflow; Exchanges, Calls and Runs about the requests that a
--     service sends in any sequence of calls; Quiet and Silence about its loggers; Tokens about its
--     token; Endless about the reading of a response that does not end.
--   Serialize: Filepath has the functions of path/filepath that are used; Documents and Files model
--     serialize/serialize.go and file_io_helpers.go; Segments and Relative are about clean paths,
--     Contained and Writing about the files in a directory, Cluster about the kind of a cluster template.
--   Effects: code that keeps a state and can fail.
--   Expression: Terms and References model expr/expr.go, Literals is about the literals in expressions.
--   Status: models status.go and ParseWorkflowStatus of model/status.go; Unordered is
--     about the order in which the map of nodes is visited.
--   Examples: concrete inputs on which the theorems are applied.
--
-- Conventions. A Go string is its list of bytes. A method that changes its receiver returns the new state;
-- an operation that fails returns an error value, whose message is kept as its format and arguments, and
-- `errors.Is` is the innermost error; a panic that leaves a method is an error that nothing handles. A pointer that may be nil is an Option; nil and empty slices and maps
-- are the same. A map is a list of its entries. A hook that changes what its pointer refers to is a
-- function to the new value. A method of the configuration reads or writes it under its mutex, in one
-- piece, so it is one step; the hooks that a dispatch runs are those registered when it begins.
-- Config.Locked does not take this for granted: there the goroutines take and give back the mutex, read
-- and write in steps that interleave in any order, and a loop over the hooks is one step. Go lets a writer
-- that waits hold back new readers, which leaves fewer orders than those considered.
--
-- Bounds. Loops over slices are structural recursion; printing a number n in decimal has the fuel n + 1,
-- and n has fewer digits than that. The reading of a response without an end takes the number of reads as
-- fuel; limit + 2 are enough. Integers are not bounded: the code computes with none, it only passes them
-- on, and counts up to three. The limit of 63 on names is the code's, and so is that of 32 MiB on
-- responses, whose int64 is less than the greatest by far. The nesting depth of parentheses that
-- containsTopLevelOr counts is bounded by the length of the text.
--
-- Outside the repository. The record Net has what the client uses of net/http, net/url and encoding/json and
-- what the server replies, as a function of the requests before; Codec has the YAML and JSON encoders of
-- package serialize; System has what package os answers, with what a failed write leaves of a file, and `filepath.EvalSymlinks`; Json has what
-- encoding/json does with a string and an int32; `time.ParseDuration` is a parameter. float64 is the record
-- Floats, with no law assumed of it. What a theorem needs of them is among its hypotheses: that
-- `url.PathEscape` leaves letters, digits, dashes and dots alone; that the working directory and resolved
-- links are clean absolute paths; that a decoder undoes its encoder, of texts in valid UTF-8 or of the
-- value at hand.
--
-- Not modelled. The JSON and YAML texts themselves. Aliasing of models that hooks keep a pointer to. What
-- other programs do to the files while the library runs. The quoting of `Key` in expr/expr.go. A nil
-- WorkflowsService, except where the code tests for it.
pub mod Prelude
pub mod Int
pub mod Effects
pub mod Model
pub mod Build
pub mod Dag
pub mod Steps
pub mod Units
pub mod Config
pub mod Workflow
pub mod Client
pub mod Serialize
pub mod Expression
pub mod Status
pub mod Examples
