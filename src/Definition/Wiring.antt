-- ===== src/Definition/Wiring.antt =====
-- The service that cmd/main.go hands to the AzurePolicyDefinition controller, and what the controller
-- may rely on: lookups change nothing in Azure, and no operation touches Kubernetes.
use policy_operator.Base.{◌≡◌, String, arith}
use policy_operator.Api.Definition.{AzurePolicyDefinition}
use policy_operator.World.{Env, Trace}
use policy_operator.World.Views.{arm_writes, kube_writes}
use policy_operator.Definition.Object.{DefinitionService}
use policy_operator.Definition.Service.{get, import, create_or_update, delete}

abbrev pub service : Env → DefinitionService
service env = record {
  get = get env;
  create_or_update = create_or_update env;
  delete = delete env;
  import = import env;
}

pub record IsLawful (svc : DefinitionService) : Type 0 where
  pub writes-get :
      (def : AzurePolicyDefinition) (t : Trace) → arm_writes (svc.get def t).1 ≡ arm_writes t
  pub writes-import :
      (id : String) (def : AzurePolicyDefinition) (t : Trace)
      → arm_writes (svc.import id def t).1 ≡ arm_writes t
  pub kube-get :
      (def : AzurePolicyDefinition) (t : Trace) → kube_writes (svc.get def t).1 ≡ kube_writes t
  pub kube-create_or_update :
      (def : AzurePolicyDefinition) (t : Trace)
      → kube_writes (svc.create_or_update def t).1 ≡ kube_writes t
  pub kube-delete :
      (def : AzurePolicyDefinition) (t : Trace) → kube_writes (svc.delete def t).1 ≡ kube_writes t
  pub kube-import :
      (id : String) (def : AzurePolicyDefinition) (t : Trace)
      → kube_writes (svc.import id def t).1 ≡ kube_writes t

module _ (env : Env) where
  pub service-IsLawful : IsLawful (service env)
  unfolding get import create_or_update delete
  service-IsLawful = record {
    writes-get = λ def t. ground arith;
    writes-import = λ id def t. ground arith;
    kube-get = λ def t. ground arith;
    kube-create_or_update = λ def t. ground arith;
    kube-delete = λ def t. ground arith;
    kube-import = λ id def t. ground arith;
  }
