-- ===== src/Evaluated.antt =====
-- The cache of evaluated objects of controllers/configurationpolicy_controller.go, by the UID of the
-- policy and the UID of the object: `setEvaluatedObject` and `alreadyEvaluated`. Each of the two is
-- one step here; the two levels of `sync.Map` are maps.
pub mod Recall
pub mod Tests
use config_policy_controller.Prelude.{
  String, Bool, true, false, not, ◌&&◌, Option, none, some, List, [], ◌∷◌,
}
use config_policy_controller.Prelude.Text.{str_eq}
use config_policy_controller.Prelude.Assoc.{find, put}

pub record CachedEvaluationResult : Type 0 where
  pub resource_version : String
  pub compliant : Bool
  pub msg : String

abbrev pub ProcessedPolicyCache : Type 0
ProcessedPolicyCache = List (String × List (String × CachedEvaluationResult))

-- The map of the policy; an empty one if there is none yet.
abbrev pub policy_map : ProcessedPolicyCache → String → List (String × CachedEvaluationResult)
policy_map cache policy_uid = elim (find policy_uid cache) [ none ↦ [] | some m ↦ m ]

-- `setEvaluatedObject`, for the UID of the policy and the UID and the resource version of the object.
unfoldable pub set_evaluated_object :
    ProcessedPolicyCache → String → String → String → Bool → String → ProcessedPolicyCache
set_evaluated_object cache policy_uid uid resource_version compliant msg =
    let result : CachedEvaluationResult = record {
      resource_version = resource_version;
      compliant = compliant;
      msg = msg;
    } in
    put policy_uid (put uid result (policy_map cache policy_uid)) cache

abbrev pub recalled : Option CachedEvaluationResult → String → Bool × Bool × String
recalled none resource_version = (false, false, "")
recalled (some r) resource_version = (
  not (str_eq r.resource_version "") && str_eq r.resource_version resource_version,
  r.compliant,
  r.msg,
)

-- `alreadyEvaluated`, for a policy and an object that are there: whether the object was evaluated at
-- this resource version, and the compliance and the message of that evaluation.
unfoldable pub already_evaluated :
    ProcessedPolicyCache → String → String → String → Bool × Bool × String
already_evaluated cache policy_uid uid resource_version = elim (find policy_uid cache) [
  | none ↦ (false, false, "")
  | some m ↦ recalled (find uid m) resource_version
]
