-- ===== src/Tests/Server.antt =====
-- A server that answers every call in the same way, with plain versions of the functions of
-- apimachinery and controllerutil that meet their documentation.
use policy_operator.Base.{
  Bool, true, false, String, Option, none, some, List, [], ◌∷◌, ◌==◌, ◌≡◌, ◌≢◌, refl, arith, eq_iff,
  if◌then◌else◌,
}
use policy_operator.Base.Lists.{contains}
use policy_operator.Api.Meta.{Condition, ObjectMeta}
use policy_operator.Arm.{ArmDefinition, Resource}
use policy_operator.World.{Env, Trace, Reply, IsMachinery, not_found, reply, failed}

abbrev pub set_condition : List Condition → Condition → List Condition
set_condition [] c = c ∷ []
set_condition (d ∷ ds) c = if d.type == c.type then c ∷ ds else d ∷ set_condition ds c

abbrev pub find_condition : List Condition → String → Option Condition
find_condition [] type = none
find_condition (d ∷ ds) type = if d.type == type then some d else find_condition ds type

find-set_self :
    (cs : List Condition) (c : Condition) → find_condition (set_condition cs c) c.type ≡ some c
find-set_self [] c = ground (arith, eq_iff c.type c.type)
find-set_self (d ∷ ds) c = ground (arith, eq_iff c.type c.type, find-set_self ds c)

find-set_ne :
    (cs : List Condition) (c : Condition) (type : String)
    → type ≢ c.type
    → find_condition (set_condition cs c) type ≡ find_condition cs type
find-set_ne [] c type n = ground (arith, eq_iff c.type type)
find-set_ne (d ∷ ds) c type n =
    ground
      (arith, eq_iff c.type type, eq_iff d.type type, eq_iff d.type c.type, find-set_ne ds c type n)

abbrev pub add : List String → String → List String
add fs f = if contains fs f then fs else f ∷ fs

abbrev pub remove : List String → String → List String
remove [] f = []
remove (g ∷ gs) f = let rest = remove gs f in if g == f then rest else g ∷ rest

contains-add : (fs : List String) (f : String) → contains (add fs f) f ≡ true
contains-add fs f = ground (arith, eq_iff f f)

contains-remove : (fs : List String) (f : String) → contains (remove fs f) f ≡ false
contains-remove [] f = refl
contains-remove (g ∷ gs) f = ground (arith, eq_iff g f, contains-remove gs f)

-- Every lookup in Kubernetes misses, every write works, Azure has nothing and accepts everything.
abbrev pub server : Env
server = record {
  definition_object = λ t. not_found "no such object";
  initiative_object = λ t. not_found "no such object";
  assignment_object = λ t. not_found "no such object";
  exemption_object = λ t. not_found "no such object";
  initiative_list = λ t. reply [];
  assignment_list = λ t. reply [];
  update_error = λ t. none;
  definition_reply = λ t. failed "404 Not Found";
  set_definition_reply = λ t. failed "404 Not Found";
  assignment_reply = λ t. failed "404 Not Found";
  exemption_reply = λ t. failed "404 Not Found";
  arm_error = λ t. none;
  role_definition_pages = λ t. [];
  decode_parameter_values = λ v. none;
  decode_parameter_definitions = λ v. none;
  uuid_string = λ t. "uuid";
  uuid_sha1 = λ s. s;
  parse_rfc3339 = λ s. none;
  set_status_condition = set_condition;
  find_status_condition = find_condition;
  contains_finalizer = contains;
  add_finalizer = add;
  remove_finalizer = remove;
}

pub server-IsMachinery : IsMachinery server
server-IsMachinery = record {
  find-set_self = find-set_self;
  find-set_ne = find-set_ne;
  contains-add = contains-add;
  contains-remove = contains-remove;
}

-- A server whose answers about definitions depend on the calls so far.
abbrev pub answering : (Trace → Reply (Resource ArmDefinition)) → Env
answering answer = record server { definition_reply = answer }

-- Such a server meets the documentation too.
pub answering-IsMachinery :
    (answer : Trace → Reply (Resource ArmDefinition)) → IsMachinery (answering answer)
answering-IsMachinery answer = record {
  find-set_self = find-set_self;
  find-set_ne = find-set_ne;
  contains-add = contains-add;
  contains-remove = contains-remove;
}

-- A server that holds one definition.
abbrev pub holding : Resource ArmDefinition → Env
holding r = answering (λ t. reply r)

pub holding-IsMachinery : (r : Resource ArmDefinition) → IsMachinery (holding r)
holding-IsMachinery r = answering-IsMachinery (λ t. reply r)

-- The metadata of the test objects, with a list of annotations.
abbrev pub meta : Bool → List String → List (String × String) → ObjectMeta
meta is_deleting finalizers annotations = record {
  name = "tagged";
  namespace = "platform";
  generation = 3;
  is_deleting = is_deleting;
  finalizers = finalizers;
  annotations = annotations;
}
