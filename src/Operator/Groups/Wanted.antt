-- ===== src/Operator/Groups/Wanted.antt =====
-- `musthaveOpGroup` of controllers/operatorpolicy_controller.go.
use config_policy_controller.Prelude.{
  ℕ, String, Bool, true, false, not, ◌&&◌, Option, none, some, List, [], ◌∷◌, if◌then◌else◌,
}
use config_policy_controller.Prelude.Text.{◌<>◌}
use config_policy_controller.Policy.{is_inform, is_enforce}
use config_policy_controller.Operator.{OperatorPolicy}
use config_policy_controller.Operator.Conds.{
  operator_group, missing_wanted_cond, created_cond, matches_cond, mismatch_cond,
  mismatch_cond_unfixable, updated_cond, op_group_preexisting_cond,
}
use config_policy_controller.Operator.Objs.{
  missing_wanted_obj, created_obj, matched_obj, mismatched_obj, updated_obj,
}
use config_policy_controller.Operator.Status.{update_status}
use config_policy_controller.Operator.Response.{updated_to}
use config_policy_controller.Operator.Groups.{
  OpGroup, created, uncreated, Creation, unconvertible, unmergeable, merged, Merging, Groups,
  GroupResponse, same_group, create_with_namespace, failed_after, done, reporting, too_many,
}

module _ {World : Type 0} (groups : Groups World) (policy : OperatorPolicy) (now : ℕ) where
  -- No group was found: it is created, unless the policy informs.
  abbrev pub group_created : OperatorPolicy × Bool → World × Creation → World × GroupResponse
  group_created first (w, created o) =
      (w, done now true first (created_cond operator_group) (created_obj o))
  group_created first (w, uncreated e) =
      (w, failed_after first [] ("error creating the OperatorGroup: " <> e.text))

  unfoldable pub create_group : OpGroup → World → World × GroupResponse
  unfolding create_with_namespace
  create_group desired w =
      let first =
        update_status policy now (missing_wanted_cond operator_group)
          (missing_wanted_obj desired.object ∷ []) in
      let answer = create_with_namespace groups desired.object w in
      if is_inform policy.spec.remediation_action
      then (w, record { correct = false; response = updated_to first })
      else group_created first answer

  abbrev pub group_updated :
      OperatorPolicy × Bool → OpGroup → World × Option String → World × GroupResponse
  group_updated first desired (w, none) =
      (w, done now true first (updated_cond operator_group) (updated_obj desired.object))
  group_updated first desired (w, some e) =
      (w, failed_after first [] ("error updating the OperatorGroup: " <> e))

  -- The found group differs from what the policy says of it: it is updated, unless the policy
  -- informs or the update is to be skipped.
  unfoldable pub update_group : OpGroup → OpGroup → Bool → World → World × GroupResponse
  update_group desired found skip w =
      let first =
        update_status policy now (mismatch_cond operator_group)
          (mismatched_obj found.object ∷ []) in
      let answer = groups.update found w in
      if is_enforce policy.spec.remediation_action && skip
      then (
        w,
        reporting policy now false (mismatch_cond_unfixable operator_group)
            (mismatched_obj found.object ∷ []),
      )
      else if is_inform policy.spec.remediation_action
      then (w, record { correct = false; response = updated_to first })
      else group_updated first desired answer

  -- A group is assumed to be good if the policy says nothing of it.
  abbrev pub preexisting : OpGroup → GroupResponse
  preexisting found =
      reporting policy now true op_group_preexisting_cond (matched_obj found.object ∷ [])

  abbrev pub merge_answered : Bool → OpGroup → World × Merging → World × GroupResponse
  merge_answered specified desired (w, unconvertible e) = (
    w,
    failed_after (policy, false) []
        ("error converting desired OperatorGroup to an Unstructured: " <> e),
  )
  merge_answered specified desired (w, unmergeable e) = (
    w,
    failed_after (policy, false) [] ("error checking if the OperatorGroup needs an update: " <> e),
  )
  merge_answered specified desired (w, merged needed skip found) =
      let updated = update_group desired found skip w in
      if not needed
      then (
        w,
        reporting policy now true (matches_cond operator_group) (matched_obj found.object ∷ []),
      )
      else if not specified
      then (w, preexisting found)
      else updated

  -- `musthaveOpGroup`, with whether the policy specifies the group.
  unfoldable pub musthave_op_group : Bool → OpGroup → List OpGroup → World → World × GroupResponse
  unfolding create_group update_group same_group
  musthave_op_group specified desired [] w = create_group desired w
  musthave_op_group specified desired (g ∷ []) w =
      let answer = merge_answered specified desired (groups.merge g w) in
      if same_group desired g then answer else if not specified then (w, preexisting g) else (
        w,
        reporting policy now false (mismatch_cond operator_group)
            (missing_wanted_obj desired.object ∷ mismatched_obj g.object ∷ []),
      )
  musthave_op_group specified desired (g ∷ h ∷ gs) w = (w, too_many policy now (g ∷ h ∷ gs))
