-- ===== src/World/Assignments.antt =====
-- internal/assignments/client.go: the methods of Client. The SDK's client inside makes the call.
use policy_operator.Base.{String, Option}
use policy_operator.Arm.{ArmAssignment, ArmIdentity, AssignmentResource}
use policy_operator.World.{
  Env, Reply, arm_call, put_assignment, delete_assignment, get_assignment, get_assignment_by_id,
}
use policy_operator.World.Go.{Go, ask, arm_command}

module _ (env : Env) where
  -- The parameters are the location, the identity and the properties.
  abbrev pub create :
      (scope name : String)
      → Option String
      → Option ArmIdentity
      → ArmAssignment
      → Go (Reply AssignmentResource)
  create scope name location identity properties =
      ask (arm_call (put_assignment scope name location identity properties)) env.assignment_reply

  abbrev pub delete : (scope name : String) → Go (Option String)
  delete scope name = arm_command env (delete_assignment scope name)

  abbrev pub get : (scope name : String) → Go (Reply AssignmentResource)
  get scope name = ask (arm_call (get_assignment scope name)) env.assignment_reply

  abbrev pub get_by_id : String → Go (Reply AssignmentResource)
  get_by_id id = ask (arm_call (get_assignment_by_id id)) env.assignment_reply
