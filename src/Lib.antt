-- ===== src/Lib.antt =====
-- The Tencent Cloud controller manager (the Go packages pkg/cache and pkg/tencentcloud, and the
-- command that starts it): the cloud provider that gives Kubernetes the machines, load balancers
-- and routes of Tencent Cloud. The provider answers questions on nodes (instances.go), makes the
-- load balancer of a service, its listeners and their backends what the service asks for
-- (loadbalancer.go and tencentcloud_loadbalancer.go) and keeps the routes of the cluster
-- (routes.go). What it learns of machines, balancers and listeners it keeps for a minute in one
-- cache (pkg/cache/cache.go).
--
-- The files:
-- - Base: numbers, lists, equality tests and integers; Go: what the program uses of Go and its
--   standard library. Go.Exec is the monad of the program: a run over a world ends in a value, an
--   error or a panic. Below it are the triples that the proofs are made of: Ensures and Keeps for
--   every end of a run, Leads for a run that returns, Returns for one that must and Sure for one
--   that returns no error.
-- - Sdk: the structures of the SDK of Tencent Cloud and of Kubernetes; Sdk.Env: every call out of
--   the program, as a parameter over a world that the program cannot see into; Sdk.Laws: what is
--   relied on of the store behind the cache. What is relied on of listeners, of registrations of
--   targets, of tasks, of the answers of DescribeInstances and of the route table stands with its
--   theorems, in LoadBalancer.Task.Effects, LoadBalancer.Instance.Laws and Recreated,
--   LoadBalancer.Listeners.Laws, Accepted and Stale, LoadBalancer.Backends.Registered and Accepted,
--   LoadBalancer.Service.Answered, Instances.Complete and Answered, Coherence.Methods and
--   Routes.Table.
-- - Cache: pkg/cache/cache.go. NewTTLCache, cacheKeyFunc, Set, Get and Delete are new_ttl_cache,
--   cache_key_func, set, get and delete; Object is what the program hands to cacheKeyFunc.
-- - Cloud: pkg/tencentcloud/cloud.go. NewCloud and checkConfig are new_cloud and check_config, whose
--   value is the configuration of the new Cloud; Cloud.Settings has what they accept. Cloud.Provider
--   has the Cloud, the constructor that init registers and Initialize, over the constructors of the
--   clients.
-- - Common: pkg/tencentcloud/common.go, isExist.
-- - Batch: the loop that the program writes three times, and what it hands over.
-- - Instances: pkg/tencentcloud/instances.go. Lookup has the searches through the cache, Api the
--   methods of the interface, ProviderId, Answers and Complete what is known of them.
-- - LoadBalancer: pkg/tencentcloud/loadbalancer.go (Service) and tencentcloud_loadbalancer.go:
--   Annotations, Lookup, Name, Task (waitApiTaskDone), Instance, Listeners and Backends, each with
--   the modules of its theorems below it. Name.Distinct has the services that share a name,
--   Lookup.Footprint the calls that the search for a balancer makes, Instance.Created and Recreated
--   the two ways in which a balancer is made, and Listeners.Steady a second run over the same
--   listeners. Service.Footprint has the calls that UpdateLoadBalancer makes, Service.Ensured and
--   Targets EnsureLoadBalancer as the composition of its three steps, Service.Updated and Answered
--   both over a service that answers and accepts, and Service.Deleted EnsureLoadBalancerDeleted.
-- - Routes: pkg/tencentcloud/routes.go.
-- - Coherence: the invariant of the cache that all components share; Coherence.History has it over
--   any history of the methods, one after another, and Coherence.Kept the part of it that holds
--   where a run panics.
-- - Command: cmd/tencent-cloud-controller-manager/main.go, main and the function Run of its command;
--   Command.Kubernetes has what it takes from cobra and from Kubernetes, and what is relied on of
--   the flags.
-- - Tests: a service in memory, and the theorems at concrete data.
-- A function of the program keeps its name, in snake case; a method of Cloud takes the calls and the
-- configuration, and the arguments that it reads.
--
-- The model. A string is its bytes. A pointer that the program follows without a test is a plain
-- field, so that a nil pointer in an answer of the service is outside the model. The panics that
-- are modelled are the type assertions on cached values, the assertion of cacheKeyFunc on a key
-- that Delete hands to the store, uid[:8] of a uid that is too short and, in the command, a flag
-- that is not there. A request that starts a task only promises its effect:
-- LoadBalancer.Task.Effects says that the promise is kept once the task answers that it succeeded,
-- and nothing of a task that answers that it failed, for which waitApiTaskDone returns no error
-- either. Errors keep their identity, since the program compares them. Integers are unbounded: the
-- program only compares and copies them; ParseInt clamps to 64 bits as in Go. Logging is left out.
-- Reading and decoding the configuration is taken as its result. Every loop of the program is over
-- a list, but for two: waitApiTaskDone has its thirty rounds, and the binary search of sort.Search
-- halves a range that is at most the length of the list, which is its fuel. The digits of a 64-bit
-- number are at most 20.
--
-- Not modelled: the clients of Tencent Cloud, the store of client-go, cobra, the flags of Kubernetes
-- and its controller manager, which are parameters; the seed of the random numbers; the concurrent
-- use of the provider by several controllers, whose methods the model runs one after another.
pub mod Base
pub mod Go
pub mod Common
pub mod Sdk
pub mod Cache
pub mod Cloud
pub mod Batch
pub mod Instances
pub mod Routes
pub mod LoadBalancer
pub mod Coherence
pub mod Command
mod Tests
