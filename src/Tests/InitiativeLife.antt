-- ===== src/Tests/InitiativeLife.antt =====
-- The theorems about the life of an AzurePolicyInitiative at a concrete input: a deleted object whose
-- Azure resource is deleted, and that is let go.
use policy_operator.World.Go.Once.{made_alone}
use policy_operator.Base.{true, [], refl}
use policy_operator.Base.Lists.{text_at}
use policy_operator.Api.Initiative.{AzurePolicyInitiative}
use policy_operator.World.{Object, update}
use policy_operator.Lifecycle.{Allowed}
use policy_operator.Initiative.Object.{InitiativeService, remove_finalizer}
use policy_operator.Initiative.Deletion.{handle_deletion}
use policy_operator.Initiative.Controller.{reconcile_fetched}
use policy_operator.Initiative.Service.{delete}
use policy_operator.Initiative.Wiring.{service, service-IsLawful}
use policy_operator.Initiative.Lifecycle.{land, Moves, saved, MayGo, phase_of, initiative_refines}
use policy_operator.Initiative.Lifecycle.Ids.{service-GivesIds}
use policy_operator.Tests.Server.{server, server-IsMachinery}
use policy_operator.Tests.Initiative.{dropped}

abbrev svc : InitiativeService
svc = service server

abbrev released : AzurePolicyInitiative
released = land (update (Object.initiative (remove_finalizer server dropped))) dropped

releases : Moves server svc true dropped released
unfolding reconcile_fetched handle_deletion delete text_at
releases =
    saved "platform" [] (update (Object.initiative (remove_finalizer server dropped)))
      (made_alone (reconcile_fetched server svc true "platform" dropped) []
        (update (Object.initiative (remove_finalizer server dropped))) refl)
      refl

initiative_refines_example :
    Allowed
      (MayGo server svc true dropped)
      (phase_of server svc true dropped)
      (phase_of server svc true released)
initiative_refines_example =
    initiative_refines server server-IsMachinery svc (service-IsLawful server)
      (service-GivesIds server (λ t. refl)) true dropped released releases
