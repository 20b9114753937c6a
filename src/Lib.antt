-- ===== src/Lib.antt =====
-- The core of Aetherium: a model of services/core/pkg/network, services/core/pkg/vmm, and of the worker,
-- the services, the queue and the store around them (services/core/pkg/worker, service, queue, storage,
-- tools), with the sessions of the gateway (services/gateway/pkg/websocket) and the in-memory event bus.
--
-- Parts. The orchestrator of services/core/pkg/vmm/firecracker/firecracker.go creates, starts, stops
-- and deletes virtual machines. Each has a TAP device, which Manager of
-- services/core/pkg/network/network.go creates on a bridge with an address of its allocator. Manager
-- owns a ProxyManager (proxy.go), which filters what the machines reach by a Squid process that
-- SquidManager (squid.go) runs on a configuration file made from the whitelists.
--
-- The services (service/workspace_service.go, service/task_service.go) write rows to a database and put
-- tasks in a queue. A worker (worker/worker.go, worker/workspace_handlers.go) takes the tasks: it has
-- an orchestrator make virtual machines, runs preparation steps and prompts in them by shell commands,
-- and records what came of it in the database. A timer has it destroy the machines that are idle. An
-- installer (tools/installer.go) runs the scripts that set the machines up. The gateway lets a client
-- talk to a workspace over a websocket (websocket/session.go): a goroutine reads prompts and runs them
-- in the workspace's machine, another writes what is to be sent.
--
-- Files.
--   Base: strings as bytes, maps as association lists, tests, lists over the native numbers.
--   Network/Host: os/exec, os, net and text/template as a parameter `Host W`, where `W` is the state of
--     the machine that runs the program. Commands answer as they like, unless a theorem says otherwise.
--   Network/Address, Network/Allocator, Network/Cidr, Network/Mac: addresses, IPAllocator,
--     net.ParseCIDR on IPv4, generateMAC.
--   Network/Manager: Manager; Tap is CreateTAPDevice and DeleteTAPDevice, Bridge is SetupBridge with
--     setupNAT and getDefaultInterface, Egress the calls passed on to the proxy.
--   Network/Config: ProxyConfig and SquidConfig of libs/common/pkg/config/config.go.
--   Network/Squid, Network/Proxy: SquidManager and ProxyManager; Proxy/Rules the redirection rules.
--   Network/Log: parseSquidLogLine, extractDomain, GetBlockedRequests and countBlockedRequests.
--   Vmm: VMConfig, VMStatus and VM of libs/types/pkg/domain/types.go; Vmm/Firecracker the orchestrator,
--     with the Firecracker SDK as a parameter `Sdk M W`; Vmm/Docker the orchestrator of
--     services/core/pkg/vmm/docker/docker.go, with the docker command as a parameter `Docker W`.
--   Storage: the rows (storage/storage.go, storage/environment.go); Storage/Db the tables with the
--     constraints of services/core/migrations, among them what is deleted along with a row; the other
--     files one repository each of storage/postgres. Storage/Answers, Storage/Kept and Storage/Cascade
--     have the lemmas on statements.
--   Worker: the state of the worker and what it calls, as a parameter `Backend W`; Worker/Registration
--     and Worker/Vms are worker.go; Worker/Workspaces, Worker/Prep, Worker/Prompts, Worker/Shell and
--     Worker/Idle are workspace_handlers.go.
--   Queue: tasks, the options of asynq's Enqueue and the wrapper around handlers (queue/queue.go,
--     queue/asynq/asynq.go); Queue/Payloads what UnmarshalPayload makes of a payload.
--   Service: the state of the services and what they call, as a parameter `Client W`; its files are
--     those of workspace_service.go (Workspaces, Prompts, Secrets, Sessions), task_service.go (Tasks) and
--     worker_service.go (Workers).
--   Gateway/Sessions: session.go; its handlers on one session, and in Sessions/Manager the memory of the
--     SessionManager. Sessions/Steps has the steps of the goroutines and of the callers of CloseSession
--     as a relation, and its runs. Gateway/Integrations: services/gateway/pkg/integrations/registry.go.
--   Installer: tools/installer.go, on ExecuteCommand as a parameter; Installer/Scripts the scripts. The
--     worker takes its installer as a parameter.
--   Events: libs/common/pkg/events/memory/memory.go; Events/Spec has the lists that it stands for.
--   Memory: the types Task and Project; Memory/Store is storage/memory/memory.go, Memory/Queue is
--     queue/memory/memory.go.
--   Base/Actions: calls that follow one another on a state, in do blocks.
--   Worker/Examples, Service/Examples, Network/Examples, Network/ProxyExamples,
--     Vmm/Firecracker/Examples, Vmm/Docker/Examples, Gateway/Examples, Installer/Examples,
--     Events/Examples, Memory/Examples: runs on a small machine.
--
-- State. A Go method on a pointer takes the state and returns the new one beside its result. Each
-- method under a mutex is one step; the orchestrator has no mutex, and its calls follow one another. A
-- whitelist update is one step with the reload that it ends in. A virtual machine's handle is a value
-- in the map, so what CreateVM and GetVMStatus return is a copy of that moment; the path that CreateVM
-- writes into its caller's configuration is kept in the virtual machine's own.
--
-- The database answers a statement unless the list `faults` says that it does not; a theorem that needs
-- an answer says so by an empty list. Each statement is one step, and the handlers run one at a time. An
-- id is the text of a UUID, and `uuid.Parse` is a parameter. JSON objects are association lists of the
-- values that the program looks at; numbers are natural, as all that are passed on are counts.
--
-- A session object of the gateway stays in memory for the goroutines that point to it when its entry
-- in the map is gone, so the two are kept apart. Any session may take the next step; a frame is
-- handled in one step, each of the four actions of cleanup in one more, so that other goroutines and
-- other cleanups come in between, and a program that has panicked takes none. The close of `done` is
-- in one step with the failed read before it. In a run, a new session has an id that no session object
-- has, as uuid.New promises. A slice of the event bus is an address and a length, and the array at the
-- address is shared by all slices that point to it; the capacity that an array grows to is a
-- parameter. A map of the in-memory store is visited in an order that is a parameter, and may be
-- another one in each call.
--
-- Bounds. The send channel of a session holds 256 messages, as in the source. The allocator's loop
-- runs 253 rounds, as in the source, and the scan is by recursion on the rounds that are left. The
-- hash of generateMAC wraps at 64 bits; offsets stay below 255.
--
-- Not modelled: IPv6 subnets, non-ASCII text, waiting and printing, the text of error messages (an
-- error says which one it is), GetStats (floats) and clocks other than the two times of a virtual
-- machine and those that the rows name (created_at and updated_at are left out, and the order by
-- created_at is that of insertion), the line limit of bufio.Scanner, log streaming, the secrets of
-- ProvideSecretsOnBoot, the timers and the registration of handlers, the settings for MCP servers (a
-- parameter), the timeout of the installer, read limits and deadlines of connections, the
-- percentages of worker_service.go, JSON text, SQL text, and the other services of the repository.
pub mod Base
pub mod Events
pub mod Gateway
pub mod Installer
pub mod Memory
pub mod Network
pub mod Vmm
pub mod Storage
pub mod Worker
pub mod Queue
pub mod Service
