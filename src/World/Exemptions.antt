-- ===== src/World/Exemptions.antt =====
-- internal/exemptions/client.go: the methods of Client. The SDK's client inside makes the call.
use policy_operator.Base.{String, Option}
use policy_operator.Arm.{ArmExemption, Resource}
use policy_operator.World.{Env, Reply, arm_call, put_exemption, delete_exemption, get_exemption}
use policy_operator.World.Go.{Go, ask, arm_command}

module _ (env : Env) where
  abbrev pub create_or_update :
      (scope name : String) → ArmExemption → Go (Reply (Resource ArmExemption))
  create_or_update scope name params =
      ask (arm_call (put_exemption scope name params)) env.exemption_reply

  abbrev pub delete : (scope name : String) → Go (Option String)
  delete scope name = arm_command env (delete_exemption scope name)

  abbrev pub get : (scope name : String) → Go (Reply (Resource ArmExemption))
  get scope name = ask (arm_call (get_exemption scope name)) env.exemption_reply
