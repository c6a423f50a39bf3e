-- ===== src/Lib.antt =====
-- A model of the OTC RDS operator: a Kubernetes controller that creates, changes and deletes
-- databases (RDS instances) of the Open Telekom Cloud for custom resources of the kind Rds.
--
-- The program. The informer calls addRds, delRds and updateRds (pkg/controller/controller.go), which
-- put events of resources in watched namespaces into a rate limiting queue. A worker
-- (pkg/controller/worker.go) takes them off and calls Create, Delete, UpdateStatus and Update
-- (pkg/controller/resource.go), which call the cloud, write the resource's status back to Kubernetes,
-- and use alarm.go for alarms, sql.go for database users and job.go for a job that fetches logs. An
-- event whose processing fails is put back, at most maxRetries times.
--
-- The files.
--   Rds         pkg/rds/v1alpha1/types.go and its deep copy: the resource, HasChanged
--   Cloud       every call of something outside the program, and the type of its answer
--   Exec        code with errors, panics and state; its invariants (Exec/Keeps, Exec/Stable)
--   Instance    resource.go: Lookup (secgroupGet, subnetGet, vpcGet, rdsGetById, rdsGetByName),
--               Provider (GetProvider), Status (rdsUpdateStatus, UpdateStatus), Create (rdsCreate,
--               Create), Delete (rdsDelete, Delete), Update (rdsUpdate, Update; its parts in
--               Update/Parts, the log job in Update/Logs)
--   Flavor      resource.go: RdsFlavorLookup
--   Alarm       alarm.go: CreateAlarm, DeleteAlarm
--   Sql         sql.go: CreateSqlUser
--   Job         job.go: createJob, createJobSpec
--   Smn         autopilot.go: SmnReceiver, its listener, its handler and the decoding of requests
--               (Server), what it does with a notification (Receiver), and how it finds the resource
--               of a topic
--   Time        time.Parse for the layout RFC 3339 (Scan, Rfc3339) and UnixMilli (Civil), of Go 1.21
--   Controller  event.go and the handlers of controller.go (Queue, Handlers), worker.go (Worker), New
--               and Run of controller.go (Start), the runs of the controller (Steps), and the policy
--               of retries that they follow (Policy), and several workers (Workers)
--   Config      internal/config/config.go: GetConfig, the String methods (Duration: time.Duration)
--   Runner      internal/runner/runner.go: Start, with the leader election
--   Main        cmd/main.go: main
--   Informers   pkg/rds/v1alpha1/apis/informers/externalversions: the factory that shares informers,
--               and the resource's informer (Resource)
--   Client      pkg/rds/v1alpha1/apis/clientset/versioned/typed/rds/v1alpha1: the requests of the client
--               of the resources (rds.go), and the client for tests (Fake: fake/fake_rds.go)
--   Clientset   pkg/rds/v1alpha1/apis/clientset/versioned: how the clients are made (clientset.go,
--               typed/rds/v1alpha1/rds_client.go)
--   Lister      pkg/rds/v1alpha1/apis/listers/rds/v1alpha1/rds.go, and resourceExists of worker.go
--   Tests       concrete worlds and inputs
--   Prelude     tests on numbers and texts, lists, Go's int and maps, strings, strconv, regexp
--
-- The state. `State` holds the world, the trace of all calls with their answers (the latest first),
-- the process environment, the package's variable projectID, the resource that the code at hand has a
-- pointer to (newRds), and a heap of the resources that the events point to. The world is a parameter,
-- an `Env`, whose answers nothing restricts, errors of the cloud, Kubernetes and the database
-- included. Calls to the logger are left out. A value that Go returns beside an error is in the
-- answer's type where the program reads it in spite of the error.
--
-- Errors and panics. `Outcome` tells a nil error, an error with its text, a panic (a nil
-- pointer, an index out of range), the end of the process by a logger (Fatal, klog.Exitf) and a
-- loop that is still waiting apart. What was written before an error stays written.
--
-- Bounds and fuel. Two loops have no bound of their own. The one over the events of the log job's
-- watch waits for the cluster, so its turns are bounded by a fuel argument and the outcome `waiting`
-- says that they were used up. A worker's loop (`run_worker`) goes on until the queue shuts down; its
-- turns are an argument, and the theorems about runs speak of any number of turns. All other loops are
-- over lists, or a fixed number of times.
-- Go's int is a 64-bit integer, in Prelude/Int.
--
-- Workers. A run of Controller/Steps is any sequence of handlers and turns of a single worker, each
-- taken as a whole. Controller/Workers has any number of workers (NUM_WORKERS), and a turn in two
-- steps, the Get of an event and its processing, between which handlers and other workers come. The
-- calls of two processings can alternate in the program: what that changes for one of them are the
-- answers of the world, which nothing restricts. But a look-up of one and a creation of the other can
-- stand between each other, so the order of the calls of a run is spoken of for one worker only.
--
-- Parameters. The work queue of client-go is a record of operations, with what its documentation says
-- as the records `IsLawful`, `IsCounting` and `IsExclusive`; the index of an informer is one with
-- `IsIndexer`; uniq.Slice is a function, with `IsUniq`; the library
-- env is a record of functions. Tests/Queue, Tests/Guarded,
-- Tests/Lister and Tests/Uniq show queues, an index and a sort that have these properties.
--
-- Notifications. A request comes with its body as the JSON value that it is, or with none where it is
-- no JSON. The requests that ListenAndServe has served are part of its answer, and are handled one
-- after the other; the handlers of concurrent requests are not interleaved. A panic of the handler ends
-- its connection only, as net/http recovers it.
--
-- Start. The informer, the wait for its caches, the goroutines of the workers, the metrics server and the
-- leader election are calls of the world; an election answers with its callbacks, in their order, which
-- are carried out one after the other, or with the panic that RunOrDie documents for an invalid
-- configuration.
--
-- Informers. The operations of the factory hold its mutex, so each is one step, and they come in any
-- order. Where they go over a map, the order in which its keys come up is an argument or of no
-- consequence. The client and the informers of client-go are parameters.
--
-- Not modelled: what is written to the logger, the registration of the resource's types, and the
-- clientset for tests, which calls client-go only.
pub mod Prelude
pub mod Rds
pub mod Cloud
pub mod Exec
pub mod Alarm
pub mod Sql
pub mod Job
pub mod Flavor
pub mod Informers
pub mod Client
pub mod Clientset
pub mod Lister
pub mod Instance
pub mod Smn
pub mod Controller
pub mod Tests
pub mod Time
pub mod Config
pub mod Runner
pub mod Main
