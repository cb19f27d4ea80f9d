-- ===== src/Operator/Groups/Handling.antt =====
-- `handleOpGroup` of controllers/operatorpolicy_controller.go.
use config_policy_controller.Prelude.{ℕ, String, Bool, false, Option, none, some, [], if◌then◌else◌}
use config_policy_controller.Prelude.Text.{str_eq, ◌<>◌}
use config_policy_controller.Policy.{is_must_have}
use config_policy_controller.Operator.{OperatorPolicy}
use config_policy_controller.Operator.Conds.{operator_group, invalid_causing_unknown_cond}
use config_policy_controller.Operator.Groups.{
  OpGroup, groups_failed, groups_listed, GroupListing, Groups, GroupResponse, failed_after,
  reporting,
}
use config_policy_controller.Operator.Groups.Wanted.{musthave_op_group}
use config_policy_controller.Operator.Groups.Unwanted.{mustnothave_op_group}

module _ {World : Type 0} (groups : Groups World) (policy : OperatorPolicy) (now : ℕ) where
  abbrev pub groups_answered :
      Bool → OpGroup → String → World × GroupListing → World × GroupResponse
  groups_answered specified desired sub_name (w, groups_failed e) =
      (w, failed_after (policy, false) [] ("error listing OperatorGroups: " <> e))
  groups_answered specified desired sub_name (w, groups_listed found) =
      let wanted = musthave_op_group groups policy now specified desired found w in
      let unwanted = mustnothave_op_group groups policy now desired sub_name found w in
      if is_must_have policy.spec.compliance_type then wanted else unwanted

  -- `handleOpGroup`, for the wanted group if there is one.
  unfoldable pub handle_op_group : Bool → Option OpGroup → String → World → World × GroupResponse
  unfolding musthave_op_group mustnothave_op_group
  handle_op_group specified none sub_name w =
      (w, reporting policy now false (invalid_causing_unknown_cond operator_group) [])
  handle_op_group specified (some desired) sub_name w =
      let answer =
        groups_answered specified desired sub_name (groups.list desired.object.namespace w) in
      if str_eq desired.object.namespace ""
      then (w, reporting policy now false (invalid_causing_unknown_cond operator_group) [])
      else answer
