-- ===== src/Lib.antt =====
-- A simulation platform in Go: an engine under pkg/simulation (entities, component columns, an
-- event queue, a scheduler of systems, a runtime with a lifecycle), and services around it under
-- internal/ that run simulations as jobs.
--
-- Each model state is a record and each method a function that returns the state after the call.
-- A method that may panic (an index out of range, a division by zero) returns an Option, in which
-- `none` is the panic. A method that holds its lock throughout is one step. Where the code releases
-- it between two parts, the parts are separate moves (a run, its watcher, Step, Publish, Consume),
-- or what others do in between is a function that the method takes (the control calls of Runner).
--
-- Entity (pkg/simulation/entity.go): EntityManager, its sparse set, free list and generations.
--   An EntityID is the native number of its 64 bits; uint32 and int32 conversions are written out.
--   Create's loop that appends to `versions` and `sparse` runs on the fuel `next + 1`, which is
--   enough since each round appends one place and the loop ends at `next`.
-- Scheduler (pkg/simulation/scheduler.go, system.go): conflicts, dependencyLevels, partition.
-- Heap (container/heap, Go's library): what the event queue calls of it, by its documented code;
--   `up` and `down` move to a smaller or a larger position in each round and run on that measure.
-- Event (pkg/simulation/event.go): Event, eventLess, EventQueue. A float64 is a value of the
--   parameter Float64 (Common/Float), whose hypothesis IsOrdered says what IEEE 754 does for values
--   that are not NaN. Payloads are values of a type that the code does not look into.
-- Runtime (pkg/simulation/runtime.go, state.go): the lifecycle calls as functions of the
--   simulation; `run` from its entry to its deferred end and its watcher as moves (Place, advance),
--   which Runtime/Lifecycle interleaves with the calls and with the three sections of Step. The executor's step and the limit are parameters.
--   run_n runs one undisturbed loop on the fuel 3n + 4: one move enters, three make each step, three
--   end it.
-- Column (pkg/simulation/component.go): Column[T]; the JSON coding of the values is a parameter.
-- Names (pkg/simulation/tags.go TagRegistry, component.go names) and Tags (tags.go TagStore): names
--   with identifiers, and bitsets of 64-bit words per entity.
-- Store (pkg/simulation/component.go): ComponentStore; the Go type of a column is a number and all
--   values are of one type that covers them.
-- World (pkg/simulation/world.go, clock.go, schedule.go), World/Executor (executor.go), World/Limits
--   (runtime.go: defaultLimit) and World/Execution (scheduler.go: runSystem, run, the cache of entity
--   sets): what a step does to the world. Shards and the systems of a level run one after the
--   other, in an order that is a
--   parameter; cancellation of the context is not modelled there.
-- Jobs (internal/queue/queue.go, internal/coord/redis.go): jobs, retries, dead letters, claims. The
--   broker takes every message and Redis answers; errors of these are not modelled.
-- Event/Snapshot (event.go) and Snapshot (pkg/simulation/snapshot.go, and Snapshot of runtime.go):
--   snapshots of the queue and of a whole world. The codings of component values and payloads, the
--   resources and the hash are parameters (Codec).
-- Migrations (internal/database/migrate.go): applying and undoing migrations over a database that is
--   a parameter; Migrations/Files loads them from the names of files.
-- Rng (pkg/rng/rng.go): the splitmix64 generator and Lemire's bounded draws; the loop that draws
--   again runs on fuel, and Rng/Draws says which fuel is enough.
-- Registry (internal/registry/registry.go): models by identifier and version, and the order of
--   versions. A factory is a value of any type.
-- Auth (internal/auth/token.go, service.go): tokens over a JWT library that is a parameter, and the
--   middleware RequireAuth and RequireRole; Auth/Passwords (password.go) the hash of a password with
--   its text form, over argon2 and base64 (Crypto), and Auth/Accounts (service.go) registration and
--   login, over the store of users.
-- Broker (internal/broker/memory.go): the broker in memory. Each Publish and Consume is a process that
--   moves between its atomic sections; a schedule is a list of moves, of which those that are not
--   ready do nothing. The deliveries are settled while their handler runs.
-- Runner (internal/runner/manager.go): Create in Runner, control, deletion and replay in
--   Runner/Control, over Runtime and Registry; State, Metrics, Snapshot and Restore in
--   Runner/Inspect. The store, what a model makes, and the executor are
--   parameters; a run configuration is kept as it is instead of as JSON, without MaxTime. A control
--   call records its status after the runtime's call without a lock: what becomes of the simulation
--   in between is a parameter, as is what becomes of it while a Step works. Between the parts of one
--   call of the manager no other changes the table of simulations or the store.
-- Workers (internal/workers/runjob.go): RunJob over the registry and the queue; the run of the
--   simulation, its snapshot and the broker are parameters, and the limit of the time is left out.
-- Api (internal/api, internal/ratelimit): handlers in Api, routes with their middleware in Api/Routes.
--   A request is a route with its header, the time and the answer of Redis to the rate limit; a
--   response is a status with a body, without the texts of messages. Api/Inspect has the handlers
--   that look into a world, Api/Stream the stream of progress, over what its ticks observe, and
--   Api/Accounts
--   registration, login and refresh.
-- Common: numbers, slices, words and integers that these share. A slice is a list, with reads and
--   writes that fail out of range.
-- Not modelled: the database, metrics, tracing and RabbitMQ code (internal/persistence, metrics,
-- observability, broker/rabbitmq.go), which calls external systems; JSON and the timeout of
-- the API; resources and the worker process; the example models and commands.
pub mod Common
pub mod Scheduler
pub mod Names
pub mod Tags
pub mod Store
pub mod World
pub mod Entity
pub mod Heap
pub mod Event
pub mod Jobs
pub mod Rng
pub mod Registry
pub mod Auth
pub mod Runner
pub mod Runtime
pub mod Column
pub mod Api
pub mod Migrations
pub mod Snapshot
pub mod Broker
pub mod Workers
