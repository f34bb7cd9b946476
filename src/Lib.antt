-- ===== src/Lib.antt =====
-- The WildFly operator: a Kubernetes controller that keeps the objects of a WildFlyServer resource in the
-- state that the resource asks for. A round of Reconcile reads the cluster, makes at most a few requests
-- and asks to be called again. On a scale down it first takes the pods that go from the load balancer,
-- then has each application server recover its transactions, and lowers the size of the StatefulSet
-- only by pods that are clean.
--
-- The parts and their files:
--   Api, Kube       the custom resource (api/v1alpha1/wildflyserver_types.go) and the fields of the
--                   Kubernetes objects that are read or written.
--   Json            the values of an interface{} that the type switches tell apart.
--   World           the cluster, the application servers and the clock: an environment answers each
--                   request by the history of the requests before it, and an action is a function of
--                   both. World/Rules has the total correctness of actions: a history grows by events
--                   that hold what the environment answered; World/Within has it in one
--                   environment of which something is assumed, and World/Emits what events a run
--                   adds, whether or not it comes to an end; World/Quiet has the actions that write
--                   no StatefulSet.
--   Util            pkg/util/go_utilities.go: numbers, conversions, maps, volume names, the sort of
--                   the pods; Util/Paths has path.Join.
--   Mgmt            pkg/util/wildfly_mgmt.go: operations of the application server over
--                   RemoteOperationsInterface.
--   Remote          pkg/util/remote_ops.go: RemoteOperationsStruct, the commands (Exec), the socket
--                   (Socket) and the logs (Logs), with the scanner (Lines) and the regular expressions
--                   (Patterns); Remote/Over has the environment that it makes.
--   Resources       pkg/resources/actions.go, generation.go and constants.go.
--   Services, Routes, ServiceMonitors, StatefulSets
--                   pkg/resources/services, routes, servicemonitors and statefulsets.
--   Recovery        controllers/transaction_recovery.go: checkRecovery (Check), the set-up (Setup), the
--                   labels (Labels), one pod's goroutine (Process/OnePod), all pods (Process), the
--                   skipped recovery (Process/Skip), and the variable that the goroutines share (Race).
--   Controller      controllers/wildflyserver_controller.go: Reconcile, checkStatefulSet (Scale),
--                   the pods' statuses (PodStatuses), the list of the pods and the watched kinds (Pods).
--   Entry           main.go, as the chain of its steps and exits.
--   Tests           a concrete server and environment, at which the theorems are applied.
--
-- An operation has the source's name in lower case with underscores. An error is a value of a result
-- type, a nil pointer that is read and an index out of range are the outcome `panic`. A function that
-- returns early is cut into stages, one for each answer that it looks at. Numbers are native; an int32
-- is an integer with its wrap-around written out. The goroutines run one after another in Process, and
-- in any interleaving of their steps on the shared variable in Race. The loops are recursions on lists or
-- on the number of rounds that the source counts; the only fuel is that of the digits of a number, and
-- the number itself is enough for it.
--
-- Not modelled: generated code; logging and the texts of errors; the version text; the vendored
-- libraries, whose calls are fields of World.Env, of Remote.Backend and of Entry.Platform. The client
-- decodes the API server's answer to a write into the object; the model keeps the object that was sent,
-- as the server and the pods stay in memory with what the operator has put there. A text in Remote
-- is valid UTF-8, given by its code points.
pub mod Prelude
pub mod Kube
pub mod Api
pub mod Json
pub mod World
pub mod Util
pub mod Mgmt
pub mod Remote
pub mod Resources
pub mod Recovery
pub mod Services
pub mod StatefulSets
pub mod Routes
pub mod ServiceMonitors
pub mod Controller
pub mod Entry
pub mod Tests
