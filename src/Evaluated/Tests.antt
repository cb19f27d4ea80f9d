-- ===== src/Evaluated/Tests.antt =====
-- A run of the cache of evaluated objects, and its theorem at a concrete cache.
use config_policy_controller.Prelude.{◌≡◌, refl, true, not, ◌&&◌, [], if◌then◌else◌}
use config_policy_controller.Prelude.Text.{str_eq}
use config_policy_controller.Evaluated.{set_evaluated_object, already_evaluated}
use config_policy_controller.Evaluated.Recall.{already_evaluated-set_evaluated_object}

recalls_the_message :
    already_evaluated (set_evaluated_object [] "p" "u" "7" true "fine") "p" "u" "7"
    ≡ (true, true, "fine")
unfolding already_evaluated set_evaluated_object
recalls_the_message = refl

already_evaluated-set_evaluated_object_example :
    already_evaluated (set_evaluated_object [] "p" "u" "7" true "fine") "p" "u" "8" ≡ (
      if str_eq "p" "p" && str_eq "u" "u"
      then (not (str_eq "7" "") && str_eq "7" "8", true, "fine")
      else already_evaluated [] "p" "u" "8")
already_evaluated-set_evaluated_object_example =
    already_evaluated-set_evaluated_object [] "p" "p" "u" "u" "7" "8" true "fine"
