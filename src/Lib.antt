-- ===== src/Lib.antt =====
-- The configuration policy controller, as functions and theorems.
--
-- A ConfigurationPolicy holds object templates. The controller evaluates a policy when it is due,
-- compares every template with the objects on the cluster, creates, updates or deletes objects when
-- the policy enforces, records conditions and related objects in the status, and prunes objects
-- that the policy no longer manages. The files model the logic of these steps:
--
--   Prelude     names of the library, Boolean tests, lists, texts and sorting
--   Policy      the types of api/v1/configurationpolicy_types.go and, in Policy/Intervals, its
--               evaluation intervals and `currentlyUsingWatch`
--   Patterns    `Matches` of pkg/common/pattern_util.go
--   Selector    `NamespaceSelectorReconciler` of pkg/common/namespace_selection.go: Get, HasUpdate,
--               Stop and Reconcile on the map of the selections, which uses Patterns
--   Schedule    `shouldEvaluatePolicy` of controllers/configurationpolicy_controller.go, which asks
--               the selector for updates
--   Conditions  `addConditionToStatus` and `addForUpdate` of the same file
--   Json        decoded JSON values and, in Json/Print, how `fmt.Sprint` and `sortAndSprint` print
--               them
--   Compare     `equalObjWithSort`, `checkFieldsWithSort` and `checkListsMatch` of
--               controllers/configurationpolicy_utils.go
--   Merge       `mergeSpecsHelper`, `mergeArrays` and `compareSpecs` of
--               controllers/configurationpolicy_controller.go, which use Compare
--   Keys        `handleKeys` and `handleSingleKey` of the same file, with the formatting of the
--               metadata from controllers/configurationpolicy_utils.go, on Merge and Compare. The
--               lists of the desired object are shared with `mergeArrays`, which writes into them:
--               Keys/Writes has the object after a loop, with which Names and Update go on
--   Related     `addRelatedObjects`, `addOrUpdateRelatedObject`, `updatedRelatedObjects` and
--               `containRelated`
--   Evaluated   the cache of evaluated objects: `setEvaluatedObject` and `alreadyEvaluated`
--   Names       `buildNameList` and `getMatchingNames`, on Keys
--   Enforce     `handleSingleObj`, `enforceByCreating` and `enforceByDeleting`, for what
--               `checkAndUpdateResource` returns, and `identifierStr`
--   Diff        `RecordDiffWithDefault`, `handleDiff` and `generateDiff`
--   Update      `checkAndUpdateResource`, on Keys, Evaluated and Diff; Update/Once has one pass of it
--               and the recursion after a conflict, Update/Handling its place in Enforce
--   Objects     `handleObjects`, on Enforce and Related, for what Names and Evaluated return
--   Operator    the operator policies: the types of api/v1beta1/operatorpolicy_types.go; in
--               Operator/Conds, Objs and Health the conditions and related objects, and in
--               Operator/Status the updates of controllers/operatorpolicy_status.go; in
--               Operator/Catalog, Deployments, Removal, Versions and Groups handlers of
--               controllers/operatorpolicy_controller.go, on Operator/Status. What `mergeObjects`
--               says of an operator group is an argument
--   Cleanup     `cleanUpChildObjects`, `getObject` and `deleteObject`, on Related
--
-- The file itself has the definitions, or child files that the list above names; the other child
-- files have the theorems, and the child Tests has runs at concrete values.
--
-- Correspondence. A function of the source has the name of the source in snake case; a loop or a
-- branch with a name of its own says so in a comment. A method on a mutable object takes the object
-- and returns it changed. A Go map is a list of fields or entries; where a theorem needs it, the
-- list has no key twice. Reading a missing key, an index out of range and a failed type assertion
-- are written out. Errors are values; log messages and metrics are dropped.
--
-- Parameters, for code that is not in this repository: the quantities of k8s.io/apimachinery, its
-- accessors of unstructured objects, label selectors, `gocmp.Equal`, the API server, the watch
-- cache, the YAML encoder and the line differ; the spare capacity that
-- the runtime gives a slice; and of Go's library the matching of file patterns,
-- base64, the clock and the parsers of times and durations. What a theorem needs of them is a hypothesis of it.
--
-- Bounds. All recursion is structural, but for the loop of `addConditionToStatus`, which runs on
-- fuel: one more than the index, which is enough as each round adds an entry; and for the recursion
-- of `checkAndUpdateResource`, whose fuel is one more than a bound on the conflicts. Generations and
-- times are natural numbers; a difference of times stops at zero, where the code asks only whether
-- it is positive. Numbers of JSON are kept as the text that they print as. The sorting is a stable
-- insertion sort, as Go's is up to twelve elements.
--
-- Not modelled: the loop over the object templates, the update of the status on the API server,
-- template resolution, of the operator policies the subscription, the install plans and the
-- reconcile loop, the dry run command, start-up and metrics.
pub mod Prelude
pub mod Policy
pub mod Patterns
pub mod Selector
pub mod Schedule
pub mod Conditions
pub mod Json
pub mod Compare
pub mod Merge
pub mod Keys
pub mod Evaluated
pub mod Names
pub mod Related
pub mod Enforce
pub mod Objects
pub mod Cleanup
pub mod Diff
pub mod Operator
pub mod Update
