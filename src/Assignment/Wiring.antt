-- ===== src/Assignment/Wiring.antt =====
-- The service that cmd/main.go hands to the AzurePolicyAssignment controller: its lookups change
-- nothing in Azure, and no operation touches Kubernetes.
use policy_operator.Assignment.Service.Quiet.{kube-create_or_update}
use policy_operator.Assignment.Exemptions.{delete_exemptions}
use policy_operator.Assignment.Exemptions.Recorded.{kube-delete_exemptions}
use policy_operator.Assignment.Roles.Quiet.{kube-delete_role_assignments}
use policy_operator.Base.{some, none, List, Option, ◌≡◌, String, arith}
use policy_operator.Api.Assignment.{
  AzurePolicyAssignment, AssignmentExemptionStatus, AssignmentIdentity,
}
use policy_operator.World.{Env, Trace}
use policy_operator.World.Views.{arm_writes, kube_writes}
use policy_operator.Assignment.Object.{PolicyAssignmentService}
use policy_operator.Assignment.Service.{get, import, create_or_update, delete}

abbrev pub service : Env → PolicyAssignmentService
service env = record {
  get = get env;
  create_or_update = create_or_update env;
  delete = delete env;
  import = import env;
}

pub record IsLawful (svc : PolicyAssignmentService) : Type 0 where
  pub writes-get :
      (assignment : AzurePolicyAssignment) (t : Trace)
      → arm_writes (svc.get assignment t).1 ≡ arm_writes t
  pub writes-import :
      (id : String) (assignment : AzurePolicyAssignment) (policy_definition_id : String) (t : Trace)
      → arm_writes (svc.import id assignment policy_definition_id t).1 ≡ arm_writes t
  pub kube-get :
      (assignment : AzurePolicyAssignment) (t : Trace)
      → kube_writes (svc.get assignment t).1 ≡ kube_writes t
  pub kube-create_or_update :
      (assignment : AzurePolicyAssignment) (policy_definition_id : String) (t : Trace)
      → kube_writes (svc.create_or_update assignment policy_definition_id t).1 ≡ kube_writes t
  pub kube-import :
      (id : String) (assignment : AzurePolicyAssignment) (policy_definition_id : String) (t : Trace)
      → kube_writes (svc.import id assignment policy_definition_id t).1 ≡ kube_writes t
  pub kube-delete :
      (scope id : String) (es : List AssignmentExemptionStatus)
      (identity : Option AssignmentIdentity) (t : Trace)
      → kube_writes (svc.delete scope id es identity t).1 ≡ kube_writes t

module _ (env : Env) where
  kube-delete_service :
      (scope id : String) (es : List AssignmentExemptionStatus)
      (identity : Option AssignmentIdentity) (t : Trace)
      → kube_writes (delete env scope id es identity t).1 ≡ kube_writes t
  unfolding delete
  kube-delete_service scope id es none t = ground (arith, kube-delete_exemptions env es t)
  kube-delete_service scope id es (some identity) t = ground (
    arith,
    kube-delete_exemptions env es t,
    kube-delete_role_assignments env id identity.permissions (delete_exemptions env es t).1,
  )

  pub service-IsLawful : IsLawful (service env)
  unfolding get import
  service-IsLawful = record {
    writes-get = λ assignment t. ground arith;
    writes-import = λ id assignment policy_definition_id t. ground arith;
    kube-get = λ assignment t. ground arith;
    kube-create_or_update = kube-create_or_update env;
    kube-import = λ id assignment policy_definition_id t. ground arith;
    kube-delete = kube-delete_service;
  }
