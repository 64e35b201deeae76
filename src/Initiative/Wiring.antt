-- ===== src/Initiative/Wiring.antt =====
-- The service that cmd/main.go hands to the AzurePolicyInitiative controller, and what the controller
-- may rely on: lookups change nothing in Azure, and no operation touches Kubernetes.
use policy_operator.Base.{◌≡◌, String, List, arith}
use policy_operator.Api.Initiative.{AzurePolicyInitiative}
use policy_operator.World.{Env, Trace}
use policy_operator.World.Views.{arm_writes, kube_writes}
use policy_operator.Initiative.Object.{InitiativeService}
use policy_operator.Initiative.Service.{get, import, create_or_update, delete}

abbrev pub service : Env → InitiativeService
service env = record {
  get = get env;
  create_or_update = create_or_update env;
  delete = delete env;
  import = import env;
}

pub record IsLawful (svc : InitiativeService) : Type 0 where
  pub writes-get :
      (initiative : AzurePolicyInitiative) (t : Trace)
      → arm_writes (svc.get initiative t).1 ≡ arm_writes t
  pub writes-import :
      (id : String) (initiative : AzurePolicyInitiative) (resolved : List String) (t : Trace)
      → arm_writes (svc.import id initiative resolved t).1 ≡ arm_writes t
  pub kube-get :
      (initiative : AzurePolicyInitiative) (t : Trace)
      → kube_writes (svc.get initiative t).1 ≡ kube_writes t
  pub kube-create_or_update :
      (initiative : AzurePolicyInitiative) (resolved : List String) (t : Trace)
      → kube_writes (svc.create_or_update initiative resolved t).1 ≡ kube_writes t
  pub kube-delete :
      (initiative : AzurePolicyInitiative) (t : Trace)
      → kube_writes (svc.delete initiative t).1 ≡ kube_writes t
  pub kube-import :
      (id : String) (initiative : AzurePolicyInitiative) (resolved : List String) (t : Trace)
      → kube_writes (svc.import id initiative resolved t).1 ≡ kube_writes t

module _ (env : Env) where
  pub service-IsLawful : IsLawful (service env)
  unfolding get import create_or_update delete
  service-IsLawful = record {
    writes-get = λ initiative t. ground arith;
    writes-import = λ id initiative resolved t. ground arith;
    kube-get = λ initiative t. ground arith;
    kube-create_or_update = λ initiative resolved t. ground arith;
    kube-delete = λ initiative t. ground arith;
    kube-import = λ id initiative resolved t. ground arith;
  }
