-- ===== src/Operator/Groups/Unwanted.antt =====
-- `mustnothaveOpGroup` of controllers/operatorpolicy_controller.go.
use config_policy_controller.Prelude.{
  ℕ, String, Bool, false, not, ◌||◌, Option, none, some, List, [], ◌∷◌, any, if◌then◌else◌,
}
use config_policy_controller.Prelude.Text.{str_eq, ◌<>◌}
use config_policy_controller.Policy.{is_inform}
use config_policy_controller.Operator.{OperatorPolicy, apply_defaults, is_keep, is_delete_if_unused}
use config_policy_controller.Operator.Conds.{
  operator_group, missing_not_wanted_cond, found_not_wanted_cond, deleted_cond, deleting_cond,
  kept_cond,
}
use config_policy_controller.Operator.Objs.{
  Object, missing_not_wanted_obj, found_not_wanted_obj, deleted_obj, deleting_obj, leftover_obj,
}
use config_policy_controller.Operator.Status.{update_status}
use config_policy_controller.Operator.Response.{updated_to}
use config_policy_controller.Operator.Groups.{
  OpGroup, subs_failed, subs_listed, SubListing, Groups, GroupResponse, same_group, failed_after,
  early, done, reporting, too_many,
}

module _ {World : Type 0} (groups : Groups World) (policy : OperatorPolicy) (now : ℕ) where
  -- The deletion of the found group, which is the wanted one, after the first report.
  abbrev pub group_deleted :
      OperatorPolicy × Bool → Object → World × Option String → World × GroupResponse
  group_deleted first object (w, some e) =
      (w, failed_after first (early now first) ("error deleting the OperatorGroup: " <> e))
  group_deleted first object (w, none) =
      (w, done now false first (deleted_cond operator_group []) (deleted_obj object))

  unfoldable pub delete_group : Object → Bool → World → World × GroupResponse
  delete_group object deleting w =
      let first =
        update_status policy now (found_not_wanted_cond operator_group [])
          (found_not_wanted_obj object ∷ []) in
      let answer = groups.delete object w in
      if is_inform policy.spec.remediation_action
      then (w, record { correct = false; response = updated_to first })
      else if deleting
      then (
        w,
        record {
          correct = false;
          response = updated_to (
              update_status first.0 now (deleting_cond operator_group [])
                (deleting_obj object ∷ []));
        },
      )
      else group_deleted first object answer

  -- The group is kept, or it is deleted if it is the wanted one and has no owners. The wanted one
  -- takes over the name of the found one.
  unfoldable pub remove_group : OpGroup → OpGroup → Bool → World → World × GroupResponse
  unfolding delete_group same_group
  remove_group desired found keep w =
      let object = record (desired.object) { name = found.object.name } in
      let deleted = delete_group object found.deleting w in
      if keep
      then (
        w,
        reporting policy now false (kept_cond operator_group) (leftover_obj found.object ∷ []),
      )
      else if not (same_group desired found)
      then (
        w,
        reporting policy now false (missing_not_wanted_cond operator_group)
            (missing_not_wanted_obj desired.object ∷ []),
      )
      else if found.owned
      then (w, reporting policy now false (kept_cond operator_group) (leftover_obj object ∷ []))
      else deleted

  -- After the listing of the subscriptions: another one uses the group.
  abbrev pub subs_answered :
      OpGroup → OpGroup → String → Bool → World × SubListing → World × GroupResponse
  subs_answered desired found sub_name keep (w, subs_failed e) =
      (w, failed_after (policy, false) [] ("error listing Subscriptions: " <> e))
  subs_answered desired found sub_name keep (w, subs_listed names) =
      remove_group desired found (any (λ n. not (str_eq n sub_name)) names || keep) w

  -- `mustnothaveOpGroup`
  unfoldable pub mustnothave_op_group :
      OpGroup → String → List OpGroup → World → World × GroupResponse
  unfolding remove_group apply_defaults is_keep is_delete_if_unused
  mustnothave_op_group desired sub_name [] w = (
    w,
    reporting policy now false (missing_not_wanted_cond operator_group)
        (missing_not_wanted_obj desired.object ∷ []),
  )
  mustnothave_op_group desired sub_name (g ∷ []) w =
      let behavior = (apply_defaults policy.spec.removal_behavior).operator_groups in
      let asked =
        subs_answered desired g sub_name (is_keep behavior)
          (groups.list_subs desired.object.namespace w) in
      let unasked = remove_group desired g (is_keep behavior) w in
      if is_delete_if_unused behavior then asked else unasked
  mustnothave_op_group desired sub_name (g ∷ h ∷ gs) w = (w, too_many policy now (g ∷ h ∷ gs))
