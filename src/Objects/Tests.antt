-- ===== src/Objects/Tests.antt =====
-- Runs of the evaluation of a desired object, and its theorems at concrete clusters.
use config_policy_controller.Prelude.{String, ◌≡◌, refl, Bool, true, false, some, [], ◌∷◌, length}
use config_policy_controller.Policy.{is_must_not_have}
use config_policy_controller.Related.{ScopedGvr}
use config_policy_controller.Enforce.Tests.{willing, matching}
use config_policy_controller.Objects.{Template, Reads, found, handle_objects}
use config_policy_controller.Objects.Verdict.{IsReported, handle_objects-IsReported}

abbrev pods : ScopedGvr
pods = record { group_version = "v1"; resource = "pods"; namespaced = true }

-- A cluster with the pods "a" and "b" as matching objects.
abbrev both : Reads Bool
both = record {
  from_cache = λ w n. found (some n);
  get = λ w n. some n;
  matching_names = λ w. ("a" ∷ "b" ∷ [], "a" ∷ "b" ∷ "c" ∷ []);
  already_evaluated = λ uid. (false, false, "");
}

abbrev wanted : String → Template
wanted name = record {
  kind = "Pod";
  name = name;
  namespace = "n";
  index = "0";
  compliance_type = "musthave";
  has_status = false;
  remediation = "inform";
  using_watch = true;
}

reports_both : length (handle_objects both willing matching [] (wanted "") pods false).1.0 ≡ 2
unfolding handle_objects is_must_not_have
reports_both = refl

handle_objects-IsReported_example :
    let r = (handle_objects both willing matching [] (wanted "a") pods false).1 in
    IsReported r.1.events r.0
handle_objects-IsReported_example =
    handle_objects-IsReported both willing matching [] (wanted "a") pods false
