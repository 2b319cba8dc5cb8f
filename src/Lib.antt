-- ===== src/Lib.antt =====
-- aa: the scheduling kernel and what it schedules with.
--
-- The program plans work packages in a dependency graph, hands each ready one to a worker under a
-- least-privilege contract, collects the worker's result, and accepts it where its gates pass. The
-- files follow its packages:
--
--   Base               helpers: results with errors, Boolean tests, lists, texts, association lists
--                      for maps, sorting, and taking one element out of a list
--   Kernel/Planner     kernel/allocator/planner/planner.go: the graph; Topology is Kahn's algorithm
--                      (topologicalLocked), Drain its termination, Release and Kahn its rounds, Schedules
--                      and Validation what it finds, Liveness that a plan goes on; Readiness is what
--                      Add, SetState and Ready do, Progress what a change of one state means
--   Kernel/Assignment  kernel/scheduler/assignment.go: the state machine and the lease
--   Kernel/Gate        kernel/gate/gate.go: the gates and the combined report
--   Kernel/Contract    kernel/contract/contract.go, registry/capabilities/capabilities.go
--   Kernel/RoleAllocator  kernel/allocator/role_allocator/role_allocator.go, runtime/worker/instance.go
--   Kernel/Context     kernel/context/compiler.go: bundles within a token budget
--   Kernel/Telemetry   kernel/telemetry/telemetry.go
--   Runtime/Worker     runtime/worker/worker.go
--   Runtime/Intake     runtime/intake/intake.go
--   Kernel/Scheduler   kernel/scheduler/scheduler.go: state and log of one scheduler; Dispatch/Begin and
--                      Dispatch/Finish are the two halves of dispatchOne (and Resolve, Approve, Reject),
--                      Verdict and Privilege what they answer; Restore has Restore and Status
--   Kernel/Scheduler/System  kernel/scheduler/run.go: attempts side by side; Changes and Begins say what
--                      one call changes (Parts its steps), Core, Invariant, Reads and Moves keep the
--                      invariant, Batch and Interleavings keep the packages of a batch ready until they
--                      begin, Safety draws the consequences, and Bounds and Retries count the attempts
--   Sync/Queue         sync/queue/queue.go: the offline queue and Reconcile; Latest says what the queue
--                      keeps, Agreement that both replicas decide alike
--   Sync/Revision      sync/revision/revision.go: Put, Diff and Apply, and Convergence where they lead
--   Sync/Parallel      sync/parallel/parallel.go: Balance and Placement show how Assign spreads the work
--   Sync/Transport     the frames of sync/transport/transport.go
--   Sync/Transfer      sync/transfer/transfer.go: chunked transfer; Chunks says what Build lists, Push what
--                      a receiver makes of pushed chunks, Held and Resume what interrupted transfers
--                      leave, Verify what a receiver accepts
--   Sync/Distribute    sync/distribute/distribute.go, sync/idempotency.go: Delivery puts a distributor and
--                      a peer together, Repeat is about receipts
--   Toolbox/Workflow   toolbox/workflow/runtime.go: History says what the log of a run may hold, Steps
--                      what the attempts of a step do, Policy
--                      what a whole step does, Order what the loop over the plan does, Runs what
--                      whole runs do
--   Runtime/Lifecycle  runtime/lifecycle/lifecycle.go: Frames, Running and Ends are about a run among
--                      other calls
--   Obsv/Journal       obsv/journal/journal.go, obsv/protocol/protocol.go: Delivery is about a subscription,
--                      Durable about events that are loaded, Reopen about a file after any calls
--   Examples           concrete runs
--
-- A Go map is an association list, and a map with a slice of its keys one list in that order. A Go
-- error is a constructor of the package's own Error. State is passed explicitly; a lock-protected part
-- of a method is one function, and dispatchOne, which gives up the lock while the runtime works, is
-- begin_dispatch and finish_dispatch. A system of Kernel/Scheduler/System holds the batch that one
-- call of Run has taken, the attempts that are with the runtime and the outcomes in the channel; a list
-- of moves is one interleaving of its goroutines with the callers of Resolve, Approve and Reject. No
-- Dispatch and no other Run is beside it: the code does not exclude that these begin a package twice. What the sink answers may depend on
-- everything that was written before. A time is a number of nanoseconds since the zero time, a text that
-- is measured (in the context compiler) is the list of its runes, and a cost in telemetry is in
-- millionths of a dollar.
--
-- A connection is the list of the frames that arrive on it and a test that says which sends fail; a
-- frame holds the body that its reader decodes. What a workflow's runner and gates answer may depend on
-- all that they were asked before.
--
-- Digests and hashes (encoding/json and crypto/sha256), the runtime's answers and the sink are
-- parameters. Kahn's algorithm runs on fuel, one more than the packages and their dependencies together; the
-- loop of Build runs on as many rounds as the payload has bytes, and the attempts of a step on those left.
--
-- Not modelled: the retrieval of context inputs, the sink of the worker lifecycle, the cryptography of pairing, the
-- compiler of workflows, the sandbox, and the parts of the repository outside kernel/, runtime/, sync/,
-- toolbox/workflow/ and obsv/journal/ (the transport of observations, storage, the forge client, the tool host, the visualizer, the user interface, the
-- Python inference service).
pub mod Base
pub mod Runtime
pub mod Kernel
pub mod Sync
pub mod Toolbox
pub mod Obsv
mod Examples
