-- ===== src/World/Views.antt =====
-- What a trace shows: the calls that change Azure, the objects written to Kubernetes.
use policy_operator.Base.{List, [], ◌∷◌, Bool, true, false, if◌then◌else◌}
use policy_operator.World.{
  Trace, kube_call, arm_call, recorded, new_uuid, KubeCall, get, list, update, update_status,
  ArmCall, get_definition, get_set_definition, get_assignment, get_assignment_by_id, get_exemption,
  list_role_definitions,
}

-- Every call that is not a read.
abbrev pub is_write : ArmCall → Bool
is_write (get_definition place name) = false
is_write (get_set_definition place name) = false
is_write (get_assignment scope name) = false
is_write (get_assignment_by_id id) = false
is_write (get_exemption scope name) = false
is_write (list_role_definitions scope filter) = false
is_write _ = true

-- The calls that change Azure, the latest first.
abbrev pub arm_writes : Trace → List ArmCall
arm_writes [] = []
arm_writes (arm_call call ∷ t) =
    let rest = arm_writes t in if is_write call then call ∷ rest else rest
arm_writes (kube_call call ∷ t) = arm_writes t
arm_writes (recorded type reason message ∷ t) = arm_writes t
arm_writes (new_uuid ∷ t) = arm_writes t

abbrev pub arm_calls : Trace → List ArmCall
arm_calls [] = []
arm_calls (arm_call call ∷ t) = call ∷ arm_calls t
arm_calls (kube_call call ∷ t) = arm_calls t
arm_calls (recorded type reason message ∷ t) = arm_calls t
arm_calls (new_uuid ∷ t) = arm_calls t

-- The calls that change a Kubernetes object, by Update or Status().Update.
abbrev pub kube_writes : Trace → List KubeCall
kube_writes [] = []
kube_writes (kube_call (get kind name) ∷ t) = kube_writes t
kube_writes (kube_call (list kind namespace) ∷ t) = kube_writes t
kube_writes (kube_call (update object) ∷ t) = update object ∷ kube_writes t
kube_writes (kube_call (update_status object) ∷ t) = update_status object ∷ kube_writes t
kube_writes (arm_call call ∷ t) = kube_writes t
kube_writes (recorded type reason message ∷ t) = kube_writes t
kube_writes (new_uuid ∷ t) = kube_writes t
