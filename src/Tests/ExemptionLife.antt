-- ===== src/Tests/ExemptionLife.antt =====
-- The theorems about the life of an AzurePolicyExemption at a concrete input: a deleted object whose
-- Azure resource is deleted, and that is let go.
use policy_operator.World.Go.Once.{made_alone}
use policy_operator.Base.{true, [], refl}
use policy_operator.Base.Lists.{text_at}
use policy_operator.Api.Exemption.{AzurePolicyExemption}
use policy_operator.World.{Object, update}
use policy_operator.Lifecycle.{Allowed, LetsGo, here, next}
use policy_operator.Exemption.Object.{ExemptionService, remove_finalizer, has_finalizer}
use policy_operator.Exemption.Controller.{handle_deletion}
use policy_operator.Exemption.Controller.{reconcile_fetched}
use policy_operator.Exemption.Service.{delete}
use policy_operator.Exemption.Laws.{service, service-IsLawful}
use policy_operator.Exemption.Lifecycle.{
  land, Moves, saved, MayGo, phase_of, is_gone, exemption_refines,
}
use policy_operator.Exemption.Lifecycle.Ids.{service-GivesIds}
use policy_operator.Exemption.Lifecycle.Invariant.{held_exemption_goes_cleared}
use policy_operator.Tests.Server.{server, server-IsMachinery}
use policy_operator.Tests.Exemption.{dropped}

abbrev svc : ExemptionService
svc = service server

abbrev released : AzurePolicyExemption
released = land (update (Object.exemption (remove_finalizer server dropped))) dropped

releases : Moves server svc true dropped released
unfolding reconcile_fetched handle_deletion delete text_at
releases =
    saved [] (update (Object.exemption (remove_finalizer server dropped)))
      (made_alone (reconcile_fetched server svc true dropped) []
        (update (Object.exemption (remove_finalizer server dropped))) refl)
      refl

exemption_refines_example :
    Allowed
      (MayGo server svc true dropped)
      (phase_of server svc true dropped)
      (phase_of server svc true released)
exemption_refines_example =
    exemption_refines server server-IsMachinery svc (service-IsLawful server)
      (service-GivesIds server (λ t. refl)) true dropped released releases

held_exemption_goes_cleared_example :
    LetsGo is_gone
      (has_finalizer server)
      (MayGo server svc true)
      (Moves server svc true)
      dropped
      released
unfolding land remove_finalizer
held_exemption_goes_cleared_example =
    held_exemption_goes_cleared server server-IsMachinery svc (service-IsLawful server)
      (service-GivesIds server (λ t. refl)) true dropped released (next here releases) refl refl
