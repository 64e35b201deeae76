-- ===== src/Lib.antt =====
-- policy-operator: a Kubernetes operator that manages Azure Policy.
--
-- Four controllers (internal/controller) each reconcile one kind of custom resource (api/v1alpha1)
-- with Azure through a service (internal/service): AzurePolicyDefinition, AzurePolicyInitiative,
-- AzurePolicyAssignment and AzurePolicyExemption. An initiative and an assignment may refer to an
-- AzurePolicyDefinition by name and use the ID in its status; an exemption may refer to an
-- AzurePolicyAssignment. A resource with the annotation import-id is adopted from Azure, in one of
-- the modes observe-only, adopt-once and reconcile.
--
-- Files:
--   Base, Base/*       names of the libraries, tests, lists and maps, the functions of package strings
--   Value, Failure     decoded JSON; errors, messages and results
--   Api, Api/*         api/v1alpha1/*_types.go and internal/controller/controller_types.go
--   Arm                the types of the Azure SDK, as far as the services fill or read them
--   World, World/*     calls and events, their answers, and Go functions over them; Assignments and
--                      Exemptions are internal/assignments/client.go and
--                      internal/exemptions/client.go
--   Common/*           what several controllers or services have in common: names and places,
--                      import IDs, metadata, drift, selectors, the answer of Reconcile
--   Definition/*       internal/controller/azurepolicydefinition_controller.go (Object, Deletion,
--                      Apply, Import, Controller) and internal/service/policydefinition/definition.go
--                      (Service); theorems in Wiring, Guards, Observing, Cleanup, Adoption, Settling,
--                      InSync, ImportIds, Lifecycle, Progress, Once, Returning, Total and Recording
--   Initiative/*       internal/controller/azurepolicyinitiative_controller.go (also Resolve) and
--                      internal/service/policybundle/initiative.go (Payload, Service); theorems in
--                      Wiring, Writes, Cleanup, Once, Agreement, InSync, Resolving, ImportIds
--                      and Lifecycle
--   Assignment/*       internal/controller/azurepolicyassignment_controller.go (also Resolve) and
--                      internal/service/policyassignment/assingment.go (Payload, Drift, Roles,
--                      Exemptions, Service); theorems in Wiring, Writes, Cleanup, Drift/Sets,
--                      Roles/Undone, Roles/Quiet, Exemptions/Recorded, Service/Removal,
--                      Service/Quiet, Once, Lifecycle, Waking, Forgetting and NeverOnce
--   Exemption/*        internal/controller/azurepolicyexemption_controller.go (Controller) and
--                      internal/service/policyexemption/exemption.go (Service); theorems in Laws,
--                      Once and Lifecycle
--   Lifecycle          the abstract machine of a managed object: its phases and allowed steps
--   Startup/*          cmd/main.go (Options, Main), internal/client and NewClient of
--                      internal/assignments and internal/exemptions (Client), SetupWithManager of
--                      the controllers (Controllers); theorems in Plan and Exit
--   Tests/*            the theorems at concrete inputs
--
-- State and calls. A Go function with effects is a function of the trace of the calls made so far,
-- the latest first, to its outcome and the longer trace; an outcome is a returned value or a panic.
-- The record `Env` answers every call of the Kubernetes client and of the Azure SDK by a function of
-- the trace, so the theorems hold for every server, and for failures at any call. The functions of
-- apimachinery, controllerutil, uuid, time and the decoders of the SDK are fields of `Env` too; what
-- the documentation of apimachinery says of conditions and finalizers is the record `IsMachinery`,
-- which the plain versions in Tests/Server meet. The controllers take their service as a record, the
-- interface of the Go code; what they rely on is the record `IsLawful`, which Wiring (for
-- exemptions, Laws) proves of the services here. Each object is passed on in full, as the code mutates
-- one object that nobody shares.
--
-- Lives. Lifecycle of each kind gives its steps: an edit by a user, who changes neither status nor
-- finalizers and takes no deletion back, or any of the writes of a reconcile, stored. `land` says what the
-- API server stores: the status markers of the types make Update leave the status, and Status().Update
-- all else. Writes that fail are not stored, and a reconcile may start in any world. GivesIds is the law
-- that Azure's answers to a write have an ID.
--
-- Start-up. A call of main is an action in a log; a function answers each with its error, if any, and
-- the first error ends the process.
--
-- Bounds. All loops are over lists that are given, and are structural recursion; no fuel is used.
-- Instants are natural numbers, and requeue times are in the unit that Api/Meta names.
--
-- Not modelled: log lines; LastTransitionTime of conditions; validation by the API server; the work
-- of controller-runtime behind the manager; the interfaces API of internal/definitions and
-- internal/initiatives, whose methods are calls of World; generated deep copies and the
-- registration with the scheme; test code. Texts that fmt builds are kept as their format and
-- arguments. Letters are folded where they are ASCII. The pager over role definitions is one call
-- that yields a list of pages. The
-- principal type of a role assignment is always ServicePrincipal and is not part of the call here.
pub mod Base
pub mod Value
pub mod Failure
pub mod Api
pub mod Arm
pub mod World
pub mod Common
pub mod Lifecycle
pub mod Definition
pub mod Initiative
pub mod Exemption
pub mod Assignment
pub mod Startup
mod Tests
