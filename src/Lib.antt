-- ===== src/Lib.antt =====
-- Models of the resource topology exporter, the daemon that publishes what each NUMA node of a
-- Kubernetes node has and what its pods leave of it, with theorems on what the models do.
--
-- How the parts work together: an event, from a timer or a file, wakes the observer
-- (pkg/resourcetopologyexporter/resourceobserver.go). It asks the resource monitor
-- (pkg/resourcemonitor) for a scan. The monitor lists the pods' resources by a client of the
-- kubelet, which middlewares wrap (pkg/podres/middleware), and turns them into zones. The observer
-- sends the zones to the updater (pkg/nrtupdater), which writes the NodeResourceTopology object of
-- the node. Both tell the condition injector (pkg/podreadiness) how it went.
--
-- Files:
-- - Base: Boolean tests, lists, association lists for Go's maps (Base.Dict), the two's-complement
--   numbers of int64 as natural numbers below 2 ^ 64 (Base.Int), and texts as lists of bytes with
--   the functions of strings and strconv that the code calls (Base.Strings).
-- - Podres: the API records; Podres.Filter is pkg/podres/filter with numalocality.Verify, and
--   Podres.Client is pkg/podres/client.go.
-- - Middleware.Exclude, Middleware.Terminal and Middleware.SharedPool: the three middlewares,
--   podexclude, terminalpods and sharedcpuspool. A reply of a client is its response with its error.
--   Middleware.Chain is how cmd/resource-topology-exporter/main.go puts them together.
-- - Monitor: pkg/resourcemonitor/resourcemonitor.go. Monitor.Topology is MakeCoreIDToNodeIDMap and
--   the other readers of the hardware topology; Monitor.Normalize is NormalizeContainerDevices and
--   GetAllContainerDevices; Monitor.Counters is ContainerDevicesToPerNUMAResourceCounters;
--   Monitor.Resources is updateNodeResources and what it calls; Monitor.Starting is
--   NewResourceMonitor; Monitor.Scan is Scan.
-- - Updater.Object: what pkg/nrtupdater puts into the object, and node_getter.go; Updater: the
--   choice between update and patch, sendData and Run; Updater.Logged notes the calls of the server.
-- - Readiness: condition.go and conditioninjector.go.
-- - Exporter: the handling of an event in ResourceObserver.Run; Exporter.Settings is
--   getTopologyManagerSettings; Exporter.Starting is Execute with createEventSource, up to the start of
--   the goroutines; Exporter.Publishing follows an event from the observer to the API server.
-- - Events: pkg/notification/notification.go, the sources of events, and, in Events.Limiter,
--   pkg/ratelimiter/ratelimiter.go as a step relation of its two goroutines.
-- - Sysinfo: pkg/sysinfo; Sysinfo.Memory is memory.go, Sysinfo.Pages is hugepages.go, and
--   Sysinfo.Counters is GetMemoryResourceCounters.
-- - Serving: pkg/metrics/server, the configuration, the TLS policy and Setup.
-- - Labelling: the name of the node in the labels of the metrics, from pkg/metrics/metrics.go.
-- - Config: pkg/config; Config.Dispatch is cfgdispatch.go, Config.Files is FromFiles, Config.Flags is
--   FromFlags, Config.Paths is ReadConfiglet, Config.Environ the variables
--   of environ.go, and Config.Loading is LoadArgs with pkg/kloglevel.
-- - Examples: the theorems at concrete inputs.
--
-- How the models correspond to the code: a struct is a record with the fields that the modelled
-- functions read or write; a pointer that may be nil is an Option; a map is an association list
-- without order of its own, and a walk over it takes the list's order; a panic is a value; what a
-- server or a package outside of the repository does is a parameter, with what the code relies on
-- in a record of laws (IsFaithful, CpuSets). Log lines and delay metrics are left out. All loops
-- walk a list, so no model needs fuel.
--
-- Not modelled: gRPC and the Kubernetes clients, the HTTP server and the counters of the metrics, the
-- proxy and the fake of the pod resources API, the YAML and JSON texts, and logging, which only call
-- libraries. The goroutines of Execute run forever; the channel between observer and updater hands
-- one info after the other on, as Exporter.Publishing does.
pub mod Base
pub mod Podres
pub mod Middleware
pub mod Monitor
pub mod Updater
pub mod Readiness
pub mod Exporter
pub mod Sysinfo
pub mod Serving
pub mod Labelling
pub mod Config
pub mod Events
pub mod Examples
