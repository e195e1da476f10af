-- ===== src/Lib.antt =====
-- A model of operator-go, a Go SDK for Kubernetes operators of data products, with theorems on it.
--
-- The SDK's reconciler drives a cluster resource: it runs the product's extensions, applies each
-- role group's resources, reads their health into conditions of the status, and reclaims the role
-- groups that left the spec. The parts that decide are modelled here; what only assembles objects
-- or calls the API server is not.
--
-- Files:
--   * Prelude: Booleans, lists, maps, signed integers, sorting, strings, a store of shared values.
--   * Common/Errors: pkg/common/errors.go and the wait state of pkg/reconciler/errors.go. An error
--     is a tree of what `Unwrap` shows. Leaves: `WaitingErrors` by the leaves of that tree. Merge:
--     `ClampRequeueAfter` and `mergeWait`.
--   * Common/Extensions: pkg/common/extension_registry.go. Order: registration order. Runs: which
--     hooks run, and the error that comes back.
--   * Config/Merger: pkg/config/merger.go. Precedence, Distinct, Arguments and Layers: which layer's
--     value a merge keeps.
--   * Config/Text: texts as lists of code points, with the functions of package strings and the
--     bufio scanner. Laws, Entries, Order: what they keep.
--   * Config/Env: pkg/config/env_adapter.go. Escapes, Lines, RoundTrip: reading what was written.
--     Shell: a word of a shell's double quotes.
--   * Config/Properties: pkg/config/properties_adapter.go. Escapes, Words, Trims, Edges, Kept,
--     Lines, RoundTrip: reading what was written, from one character to a whole file.
--   * Api/Spec, Api/Status: pkg/apis/commons/v1alpha1. Written, Conditions: `SetCondition`. Ledger:
--     `status.roleGroups` as a set of pairs.
--   * Reconciler/Names: `RoleGroupResourceName` of pkg/reconciler/generic_reconciler.go.
--   * Api/Config: the config block of a role or role group: config_types.go, resource_types.go and
--     logging_types.go of pkg/apis/commons/v1alpha1.
--   * Logging: the merge of logging specs in pkg/productlogging/logging.go. Levels, Containers: the
--     level that a target ends with.
--   * Reconciler/Affinity: pkg/reconciler/affinity.go. Reconciler/Fold: `FoldCommonConfig` of
--     pkg/reconciler/config_fold.go. Layers: its loop. Stated: a run of it. Resources, Levels,
--     Leaves: which layer's value a leaf has. Errors: when it fails. Members, Reports: what it says
--     of the members it drops.
--   * Reconciler/Health: `Check` of pkg/reconciler/health.go, as a function of an observation of the
--     cluster, over Pods (the pods that need attention), Groups (the role groups) and Writes (the
--     conditions). Verdicts, OnePass and Stable: Check as a list of writes. Truth, Faults,
--     Available: when the conditions are true.
--   * Kube: the API client as a parameter, actions on an arbitrary world that log their requests
--     (Act), a logic of what actions keep (Logic, Safety), and actions that return (Totality).
--   * Reconciler/Cleaner: pkg/reconciler/cleaner.go. Delete, Marks, Discover and Teardown hold its
--     functions in the order of the file's parts, Teardown/Bookkeeping what a pass keeps. Rules,
--     Guards, Drains, Stamps and Passes: what a pass may ask of the API server. Confirmed: the
--     confirmation. Ledger, Pruning: the status. Wakeups, Pending, Rerun: the requeue. Returns: that
--     a pass returns.
--   * Sidecar: the manager of pkg/sidecar, on a store of configs that pointers share. Injection:
--     `InjectAll`, `Inject` and the validation. Images: `CloneForBuild` and `SetProductImage`.
--     Order: the injection order. Clones, Copies, Fills, Builds: what a build may change and what it
--     reads. Registrations: what any calls keep. Validation: when it finds nothing.
--   * Tests: each theorem at a concrete input; Tests/Cleanups holds a cluster in memory.
--
-- Conventions: a Go map is an association list in its iteration order; a pointer that may be nil is
-- an Option; durations are signed counts of nanoseconds within int64 and times are counts of
-- nanoseconds; an RFC 3339 annotation stands for the second that it denotes. Every function is
-- total without fuel, but the decimal printer, whose fuel is the number plus one and so at least
-- its number of digits. A text of a config file, or the name of a sidecar provider, is the list of
-- its code points, so only valid UTF-8 is modelled; the scanner's limit counts its bytes. The names
-- of clusters, roles, groups and resources are native texts, cut by characters where the code cuts
-- bytes: the two agree on ASCII names. The errors of the formats leave out the text that they quote.
--
-- Parameters: the API client and its readers, client-go's `RetryOnConflict` (assumed to run its
-- function some number of times and return what the last run did), the clock, the SHA-256 digest of
-- a name, the JSON codec and the strategic merge patch, the types of affinity terms and
-- `resource.Quantity`, the text of an error, the methods of an extension and of a sidecar provider.
-- The fold's deep copies are the values themselves.
--
-- Not modelled: log lines, metrics, the mutex of the registry, deadlines of probes; the assembly of
-- Kubernetes objects (pkg/builder, pkg/security, pkg/vector, the templates of pkg/productlogging);
-- the other files of pkg/reconciler and pkg/config; the providers of pkg/sidecar and its helpers on
-- pods.
pub mod Prelude
pub mod Common
pub mod Config
pub mod Logging
pub mod Sidecar
pub mod Api
pub mod Kube
pub mod Reconciler
pub mod Tests
