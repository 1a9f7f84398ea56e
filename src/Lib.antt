-- ===== src/Lib.antt =====
-- smeltry-operator: a Kubernetes operator that serves clusters on bare metal.
--
-- The program. A user files a ClusterClaim. The operator checks it against an AddonProfile, a
-- SiteConfig and the free machines that Netbox (the inventory of machines and addresses) lists,
-- takes two addresses and the machines in Netbox, lets a Job write the hardware objects, creates
-- the Cluster API objects, installs the addons, grants the tenant the kubeconfig and then scales
-- the cluster and deletes it. Each pass of the loop reads one object, acts on its phase, writes
-- its status and says when to come back. A finalizer gives everything back on deletion.
--
-- The files.
--   Base, Base/*: names shared by all, lists over the native numbers, texts, integers.
--   Error: error values, and results.
--   Api, Api/*: the custom resources (api/v1alpha1/clusterclaim_types.go, other_types.go,
--     auditevent_types.go), a struct as a record, a string enum as a data type whose constructor
--     `other` stands for any other text.
--   Netbox, Netbox/Types, Netbox/Iface: the data and the interface of the Netbox client
--     (internal/netbox/client.go, interface.go). Netbox/Fake: the in-memory client
--     (internal/netbox/fake/client.go), a total implementation of the interface, and in
--     Netbox/Fake/Inventory what a client sees of it, a function from device IDs.
--   Http: the HTTP client of Netbox (internal/netbox/client.go). Http/Client has the client's record
--     and its methods, Http/Types the requests and answers, Http/Json a JSON value, Http/Decode the
--     decoding into the structs, Http/Query the standard library's url.Values with its encoding and
--     Http/Bytes the bytes of a text. Http/Query/Roundtrip reads an encoded query back.
--   Config: Config/Holder (internal/config/holder.go) and Config/Watcher (internal/config/watcher.go).
--   Telemetry: Setup (internal/telemetry/otel.go). Startup: main (main.go), split at the two points
--     after which it no longer reads settings and no longer sets up reconcilers; Startup/Types has
--     the flags, the parameters and what the process holds.
--   Kube, Kube/*: the third-party objects as far as the code uses them, and the record `Kube`: the
--     calls of client-go, controller-runtime and the standard library that the code makes.
--   Effect, Effect/*: a Go function as a function of the state of the world that gives its result,
--     the trace of its calls and the new state. A `Block` is a part of a body that may return
--     early; `body` closes it. Effect/Emits has a rule for each way to build a block, by which a
--     property of every call is proved along the code; Effect/Traces does so for a property of the
--     whole trace.
--   Controller/Reply, Controller/Utility, Controller/Audit: the results of Reconcile, the condition
--     and string helpers (internal/controller/clusterclaim_controller.go), emitAuditEvent
--     (internal/controller/auditevent_controller.go).
--   Controller/Cluster/*: the ClusterClaim controller (internal/controller/
--     clusterclaim_controller.go): Machine is Reconcile, Validate is stepValidate, Provision is
--     stepProvision, Capi is ensureCAPIObjects, Addons is stepWatchAddons, Kubeconfig is
--     stepExposeKubeconfig, Steady is stepReconcileReady with scaleUp and scaleDown, Deletion is
--     reconcileDelete. Lifecycle is the relation on phases that is not in the code: the
--     specification that Reconcile is proved to follow. Ledger and Books count, along a trace, the
--     addresses and the machines that are taken, given back and recorded; Accounts and Books have
--     the rules by which the blocks of stepProvision and stepReconcileReady are followed. The
--     children of these modules hold the proofs about them: of Machine, Phases is one pass, Life and
--     Fleet are all the passes of a claim with its addresses and its machines, History its phases.
--     A child Attention holds that a step leads to another pass, by the rules of
--     Controller/Attention, where controller-runtime's reading of a reply is written out.
--     Capi/Values and Provision/Values hold the pure helpers.
--   Controller/Server/*: the ServerClaim controller (internal/controller/serverclaim_controller.go):
--     Defs, Steps (stepValidate and stepProvision), Machine (Reconcile and reconcileDelete), and its
--     own Lifecycle. Controller/Purge: the purge of audit events (internal/controller/
--     auditevent_controller.go). Controller/Sites: the SiteConfig controller (internal/controller/
--     siteconfig_controller.go). Controller/Tenants: the sync of tenants (internal/controller/
--     netboxtenant_controller.go). Controller/Addresses: what it means that an address is recorded.
--     Controller/History: the objects stored under one name one after another, for both claims.
--   Rbac: EnsureClusterRBAC (internal/rbac/setup.go).
--   Tests/*: a small installation, and every theorem applied to it.
--
-- Parameters. The API server, Netbox, the clock, the parsers of instants and durations, the
-- finalizer and owner-reference helpers, and the order in which a range loop visits a map are
-- arguments of the definitions (records `Kube` and `ClientIface`, the field `range_order`). So are
-- the transport of the HTTP client (the field `send`: the making of a request and its sending), the
-- OpenTelemetry libraries (the record `Otel`), and the manager, the environment and the flags as
-- parsed (the records `Platform` and `Flags`). The theorems on the controllers assume of them at
-- most the answers that a statement names: they hold for every other answer, failures included.
-- The controllers take any ClientIface; Startup gives them the one that asks the holder for its
-- client before each call.
--
-- Passes. A relation over the stored claim stands for the life of a claim (Machine/Life,
-- Machine/Fleet, Controller/History): a pass reads the claim as it is stored, and the API server
-- takes the status of a status update and all else of an update, as the status subresource of the
-- resources demands. Between two passes others change the metadata and the spec.
--
-- Conventions. A call takes the state of the world `W` and gives an answer and a new state, so the
-- world may change between any two calls, as other clients change it. Code that changes its
-- object in place gives back the changed object. An Update gives an error or none; what the server
-- writes back into the object (its resource version) is not carried. Durations and instants are
-- counted in nanoseconds. Counts and Netbox IDs are natural numbers: the schema of the resources
-- demands at least 1 of machineCount and of an addon's order. int32(machineCount) wraps around.
-- Every loop runs over a list and is structural recursion, so no fuel is used. sort.Slice is the
-- insertion sort that Go's library runs on slices of up to twelve elements; beyond that, only the
-- order of components with the same order number may differ from the model's.
--
-- JSON is modelled as values, and an answer's body is its first value. The names in an object of an
-- answer are taken to be distinct and spelled as in the structs' tags, where Go's decoder lets the
-- last of several count and ignores case. A negative ID is an error.
-- A listing gives the decoded results, although Go leaves open whether `return result.Results,
-- Decode(&result)` reads them before or after.
--
-- Not modelled: log lines and the set-up of the log, what the registration of a controller with the
-- manager does beyond the watches of the configuration, metrics, generated code, the text of JSON,
-- the mutexes (of the fake client and the holder), which make the methods atomic, the bounds of
-- Go's durations, but for the wait in
-- Controller/Cluster/Steady for the time of deletion.
pub mod Base
pub mod Error
pub mod Api
pub mod Netbox
pub mod Kube
pub mod Effect
pub mod Http
pub mod Controller
pub mod Rbac
pub mod Config
pub mod Telemetry
pub mod Startup
mod Tests
