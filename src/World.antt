-- ===== src/World.antt =====
-- What surrounds the operator: the calls that it makes, in order, and their answers.
-- The trace holds the calls made so far, the latest first. An `Env` answers each call by a function of
-- the trace, so that it may be any server with any state, and may fail at any time.
pub mod Go
pub mod Assignments
pub mod Exemptions
pub mod Try
pub mod Views
use policy_operator.Base.{ℕ, Bool, String, Option, List, none, some, ◌≡◌, ◌≢◌, true, false}
use policy_operator.Base.Lists.{Dict}
use policy_operator.Value.{Value}
use policy_operator.Failure.{Message}
use policy_operator.Api.Meta.{Condition, NamespacedName}
use policy_operator.Api.Definition.{AzurePolicyDefinition}
use policy_operator.Api.Initiative.{AzurePolicyInitiative}
use policy_operator.Api.Assignment.{AzurePolicyAssignment}
use policy_operator.Api.Exemption.{AzurePolicyExemption}
use policy_operator.Arm.{
  ArmParameterDefinition, ArmDefinition, ArmSetDefinition, ArmAssignment, ArmIdentity, ArmExemption,
  Resource, AssignmentResource, Place,
}

pub data Kind : Type 0 where
  definition initiative assignment exemption : Kind

pub data Object : Type 0 where
  definition : AzurePolicyDefinition → Object
  initiative : AzurePolicyInitiative → Object
  assignment : AzurePolicyAssignment → Object
  exemption : AzurePolicyExemption → Object

-- Calls of the Kubernetes client: Get, List, Update and Status().Update.
pub data KubeCall : Type 0 where
  get : Kind → NamespacedName → KubeCall
  list : Kind → String → KubeCall
  update : Object → KubeCall
  update_status : Object → KubeCall

-- Calls of the Azure SDK.
pub data ArmCall : Type 0 where
  get_definition : Place → String → ArmCall
  put_definition : Place → String → ArmDefinition → ArmCall
  delete_definition : Place → String → ArmCall
  get_set_definition : Place → String → ArmCall
  put_set_definition : Place → String → ArmSetDefinition → ArmCall
  delete_set_definition : Place → String → ArmCall
  get_assignment : (scope name : String) → ArmCall
  get_assignment_by_id : String → ArmCall
  put_assignment :
      (scope name : String) → Option String → Option ArmIdentity → ArmAssignment → ArmCall
  delete_assignment : (scope name : String) → ArmCall
  get_exemption : (scope name : String) → ArmCall
  put_exemption : (scope name : String) → ArmExemption → ArmCall
  delete_exemption : (scope name : String) → ArmCall
  list_role_definitions : (scope filter : String) → ArmCall
  put_role_assignment : (scope name principal_id role_definition_id : String) → ArmCall
  delete_role_assignment : (scope name : String) → ArmCall

-- Event types of the Kubernetes event recorder.
pub data EventType : Type 0 where
  normal warning : EventType

pub data Event : Type 0 where
  kube_call : KubeCall → Event
  arm_call : ArmCall → Event
  recorded : EventType → String → Message → Event
  new_uuid : Event

abbrev pub Trace : Type 0
Trace = List Event

-- An answer of the Azure SDK, or the text of its error.
pub data Reply (A : Type 0) : Type 0 where
  reply : A → Reply A
  failed : String → Reply A

-- An answer of the Kubernetes client's Get.
pub data Fetched (A : Type 0) : Type 0 where
  found : A → Fetched A
  not_found : String → Fetched A
  get_failed : String → Fetched A

-- The code outside the repository. The answers read the trace whose head is the call itself.
pub record Env : Type 0 where
  -- the Kubernetes client
  pub definition_object : Trace → Fetched AzurePolicyDefinition
  pub initiative_object : Trace → Fetched AzurePolicyInitiative
  pub assignment_object : Trace → Fetched AzurePolicyAssignment
  pub exemption_object : Trace → Fetched AzurePolicyExemption
  pub initiative_list : Trace → Reply (List AzurePolicyInitiative)
  pub assignment_list : Trace → Reply (List AzurePolicyAssignment)
  -- the error of Update and Status().Update, if any
  pub update_error : Trace → Option String
  -- the Azure SDK
  pub definition_reply : Trace → Reply (Resource ArmDefinition)
  pub set_definition_reply : Trace → Reply (Resource ArmSetDefinition)
  pub assignment_reply : Trace → Reply AssignmentResource
  pub exemption_reply : Trace → Reply (Resource ArmExemption)
  -- the error of a Delete and of a role assignment's Create, if any
  pub arm_error : Trace → Option String
  -- the pages that a pager over role definitions yields: the IDs on each page, or its error
  pub role_definition_pages : Trace → List (Reply (List (Option String)))
  -- decoding into the SDK's types; the nil map is `some none`
  pub decode_parameter_values : Value → Option (Option (Dict (Option Value)))
  pub decode_parameter_definitions : Value → Option (Option (Dict (Option ArmParameterDefinition)))
  -- package uuid: NewString, and NewSHA1 under the operator's namespace
  pub uuid_string : Trace → String
  pub uuid_sha1 : String → String
  -- time.Parse(time.RFC3339, s), as an instant
  pub parse_rfc3339 : String → Option ℕ
  -- k8s.io/apimachinery and controllerutil
  pub set_status_condition : List Condition → Condition → List Condition
  pub find_status_condition : List Condition → String → Option Condition
  pub contains_finalizer : List String → String → Bool
  pub add_finalizer : List String → String → List String
  pub remove_finalizer : List String → String → List String

-- What the documentation of apimachinery and controllerutil says of these functions.
pub record IsMachinery (env : Env) : Type 0 where
  pub find-set_self :
      (cs : List Condition) (c : Condition)
      → env.find_status_condition (env.set_status_condition cs c) c.type ≡ some c
  pub find-set_ne :
      (cs : List Condition) (c : Condition) (type : String)
      → type ≢ c.type
      → env.find_status_condition (env.set_status_condition cs c) type
        ≡ env.find_status_condition cs type
  pub contains-add :
      (fs : List String) (f : String) → env.contains_finalizer (env.add_finalizer fs f) f ≡ true
  pub contains-remove :
      (fs : List String) (f : String) → env.contains_finalizer (env.remove_finalizer fs f) f ≡ false
