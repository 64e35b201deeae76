-- ===== src/Tests/Lifecycle.antt =====
-- The theorems about the lives of definitions and initiatives at concrete inputs: a definition that
-- was edited, took the finalizer, was written to Azure, was deleted and let go.
use policy_operator.World.Go.Once.{made_alone}
use policy_operator.Base.{ne_of_differ, true, false, [], ◌∷◌, ◌≡◌, refl}
use policy_operator.Base.Lists.{text_at}
use policy_operator.Api.Definition.{AzurePolicyDefinition}
use policy_operator.World.{Env, Trace, Object, update, update_status}
use policy_operator.Lifecycle.{Allowed, here, next}
use policy_operator.Definition.Object.{has_finalizer, add_finalizer, remove_finalizer}
use policy_operator.Definition.Controller.{reconcile_fetched}
use policy_operator.Definition.Apply.{applied_object}
use policy_operator.Definition.Wiring.{service, service-IsLawful}
use policy_operator.Definition.Lifecycle.{land, Moves, saved, MayGo, phase_of, definition_refines}
use policy_operator.Definition.Lifecycle.Ids.{service-GivesIds}
use policy_operator.World.{arm_call, put_definition, Reply, reply, failed}
use policy_operator.World.Go.Ids.{identifies}
use policy_operator.Arm.{Resource, ArmDefinition}
use policy_operator.Base.{arith}
use policy_operator.Definition.Object.{DefinitionService}
use policy_operator.Definition.Apply.{reconcile_definition}
use policy_operator.Definition.Import.{handle_import}
use policy_operator.Definition.Service.{create_or_update, get}
use policy_operator.Definition.Lifecycle.Invariant.{bound_definition_is_held}
use policy_operator.Tests.Server.{answering, answering-IsMachinery, meta}
use policy_operator.Tests.Definition.{object, live, live_id}

-- Azure has no definition until it is written.
abbrev pub answered : Trace → Reply (Resource ArmDefinition)
answered (arm_call (put_definition place name params) ∷ t) = reply live
answered _ = failed "404 Not Found"

abbrev pub azure : Env
azure = answering answered

identified : (t : Trace) → identifies (answered t) ≡ true
identified t = ground arith

abbrev pub svc : DefinitionService
svc = service azure

abbrev pub fresh : AzurePolicyDefinition
fresh = record (object false [] "") { meta = meta false [] [] }

abbrev pub held : AzurePolicyDefinition
held = land (update (Object.definition (add_finalizer azure fresh))) fresh

abbrev pub bound : AzurePolicyDefinition
bound = land (update_status (Object.definition (applied_object azure held live_id))) held

abbrev gone : AzurePolicyDefinition
gone = record bound { meta = record bound.meta { is_deleting = true } }

abbrev released : AzurePolicyDefinition
released = land (update (Object.definition (remove_finalizer azure gone))) gone

holds : Moves azure svc true fresh held
unfolding reconcile_fetched
holds =
    saved [] (update (Object.definition (add_finalizer azure fresh)))
      (made_alone (reconcile_fetched azure svc true fresh) []
        (update (Object.definition (add_finalizer azure fresh))) refl)
      refl

binds : Moves azure svc true held bound
unfolding reconcile_fetched reconcile_definition handle_import create_or_update get text_at land
    add_finalizer
binds =
    saved [] (update_status (Object.definition (applied_object azure held live_id)))
      (made_alone (reconcile_fetched azure svc true held) []
        (update_status (Object.definition (applied_object azure held live_id))) refl)
      refl

definition_refines_example :
    Allowed
      (MayGo azure svc true held)
      (phase_of azure svc true held)
      (phase_of azure svc true bound)
definition_refines_example =
    definition_refines azure (answering-IsMachinery answered) svc (service-IsLawful azure)
      (service-GivesIds azure identified) true held bound binds

bound_definition_is_held_example : has_finalizer azure bound ≡ true
unfolding land add_finalizer applied_object
bound_definition_is_held_example =
    bound_definition_is_held azure (answering-IsMachinery answered) svc (service-IsLawful azure)
      (service-GivesIds azure identified) true fresh bound (next (next here holds) binds) refl refl
      (ne_of_differ refl)
