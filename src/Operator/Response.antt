-- ===== src/Operator/Response.antt =====
-- What the handlers of controllers/operatorpolicy_controller.go return.
use config_policy_controller.Prelude.{String, Bool, false, Option, none, some, List, []}
use config_policy_controller.Policy.{Condition}
use config_policy_controller.Operator.{OperatorPolicy}

-- What a handler returns: the policy, whether its status changed, the conditions to emit for what
-- was before, and the error if there is one.
pub record Response : Type 0 where
  pub policy : OperatorPolicy
  pub changed : Bool
  pub early : List Condition
  pub err : Option String

abbrev pub updated_to : OperatorPolicy × Bool → Response
updated_to (policy, changed) = record { policy = policy; changed = changed; early = []; err = none }

abbrev pub failing : OperatorPolicy → String → Response
failing policy text = record { policy = policy; changed = false; early = []; err = some text }
