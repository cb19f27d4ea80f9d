-- ===== src/Operator/Groups/Tests.antt =====
-- Runs of the handling of operator groups, and its theorem at a concrete group.
use config_policy_controller.Prelude.{◌≡◌, refl, false, none, List, [], ◌∷◌, ◌++◌}
use config_policy_controller.Policy.{is_inform}
use config_policy_controller.Operator.{apply_defaults, is_keep, is_delete_if_unused}
use config_policy_controller.Operator.Objs.{Object}
use config_policy_controller.Operator.Groups.{
  OpGroup, created, merged, groups_listed, subs_listed, Groups, same_group,
}
use config_policy_controller.Operator.Groups.Unwanted.{
  delete_group, remove_group, mustnothave_op_group,
}
use config_policy_controller.Operator.Groups.Safety.{
  named_as, IsCareful, mustnothave_op_group-IsCareful,
}
use config_policy_controller.Operator.Samples.{unwanted}

-- A cluster with one group, which nothing else uses.
abbrev one_group : OpGroup
one_group = record {
  object = record {
    kind = "OperatorGroup";
    group_version = "operators.coreos.com/v1";
    name = "g-x7";
    namespace = "n";
    uid = "7";
  };
  generate_name = "g-";
  owned = false;
  deleting = false;
}

abbrev wanted_group : OpGroup
wanted_group = record one_group { object = record (one_group.object) { name = ""; uid = "" } }

abbrev noting_groups : Groups (List Object)
noting_groups = record {
  list = λ ns w. (w, groups_listed (one_group ∷ []));
  list_subs = λ ns w. (w, subs_listed ("s" ∷ []));
  create = λ o w. (w, created o);
  create_namespace = λ ns w. (w, none);
  merge = λ g w. (w, merged false false g);
  update = λ g w. (w, none);
  delete = λ o w. (w ++ o ∷ [], none);
}

-- The group of the wanted prefix is deleted under the name that it has.
deletes_group :
    (mustnothave_op_group noting_groups unwanted 5 wanted_group "s" (one_group ∷ []) []).0
    ≡ named_as wanted_group one_group ∷ []
unfolding mustnothave_op_group remove_group delete_group same_group is_inform apply_defaults is_keep
    is_delete_if_unused
deletes_group = refl

mustnothave_op_group-IsCareful_example :
    IsCareful noting_groups
      (λ w. w)
      unwanted
      5
      (record { deletes = λ o w. refl; lists = λ ns w. refl })
      wanted_group
      "s"
      (one_group ∷ [])
      []
      (mustnothave_op_group noting_groups unwanted 5 wanted_group "s" (one_group ∷ []) [])
mustnothave_op_group-IsCareful_example =
    mustnothave_op_group-IsCareful noting_groups (λ w. w) unwanted 5
      (record { deletes = λ o w. refl; lists = λ ns w. refl }) wanted_group "s" (one_group ∷ []) []
