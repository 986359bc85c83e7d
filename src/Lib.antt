-- ===== src/Lib.antt =====
-- Verification of the retycfs Kubernetes CSI driver: the Go code under internal/.
--
-- The driver provisions Retyc datarooms as volumes (controller service) through the retyc CLI, and mounts
-- them on the nodes (node service) through mount pods, one per volume and node, that run `retyc fs mount`
-- on kubelet's staging path; kubelet then bind-mounts that path into the consumer pods.
--
-- Parts and files:
-- - Prelude: shared tests on numbers and texts, lists, maps from texts as association lists, int64 values
--   as signed integers, and Exec, actions on a state that may fail and whose effects then stay.
-- - Identity: internal/identity/identity.go, FromSecrets, FromEnv, MergeEnv and Key.
-- - Retyc: internal/retycclient/client.go. Errors classifies CLI errors (classify, hasKind and the Is
--   functions), Stderr is parseStderrError and stripANSI, Size is FormatSize, Commands the calls over a
--   record Cli that stands for the retyc process and encoding/json.
-- - Controller: internal/driver/controller.go. Requests has the checks that touch nothing (checkParameters,
--   parseMutableParameters, reservedBytes), Errors apiError and updateError, Volumes the calls. CreateVolume
--   is `create_volume`: check_request, check_claim, client, then `provision`.
-- - Driver: internal/driver/annotations.go (Claims: claimOwner, parseID) and tenant.go (Tenant:
--   checkDefaultIdentity). Status are the gRPC codes.
-- - Mountpod: internal/mountpod. Exit and Backoff are backoff.go: the restart states of the volumes are a
--   map from volume IDs, each method of the Manager one step on it, since it runs under the mutex. Pod is the
--   reading of a pod (stateOf, finished, wasReady), Spec what pod.go builds from a spec (Spec/Resources,
--   Spec/Build), Kube the Kubernetes API with the clock, the Prepare hook and the probe as a record of
--   operations on a world, Manager the calls of manager.go: Get, List, Ready, Secrets (ownSecret,
--   deleteSecrets, release, RemoveFinalizer, SpecOf), Ensure and Delete. Their state is `Host`: the restart
--   states and the world. A Go call that returns a State and an error raises both together.
-- - Mount: internal/mount/bind.go, with unmountAll of internal/driver/recovery.go, over mount-utils,
--   umount2 and the os calls as a record of operations.
-- - Driver/Recovery: the functions of internal/driver/recovery.go on the mount table: topMount, layers,
--   binds, deadTargets, and metricState. The test isTarget is an argument.
-- - Driver/Exits: the reports of exits of internal/driver/node.go: emitExit, reportExit, reportExitEarly. Its
--   state is the set exitReported and the events recorded so far.
-- - Driver/KeyLock: internal/driver/keylock.go, the lock of a volume. Its entries are numbered objects, its
--   callers stand before, in, and behind Lock; Step interleaves them, one access to the shared state at a
--   time. Safety has the specification that it refines: who works on which volume.
-- - Driver/Settings: parseMountSettings and parseMountResources of internal/driver/annotations.go.
-- - Driver/Node: internal/driver/node.go and the rest of internal/driver/recovery.go, over `Calls`: the
--   Manager's `Kube`, the mount calls, the claims, the mount table, kubelet's files, the clock. `NodeState` is
--   the state of the NodeServer: the Manager's restart states and the world, busy, gaveUp, exitReported and
--   the events. StageSpec is stageSpec, Ensure ensureMounted with restage, recreate and checkReady, Stage
--   NodeStageVolume and NodeUnstageVolume, Rebind rebind and unstack, Recover recoverVolume, Publish
--   NodePublishVolume and repairStaging, Round Recover and pruneBackoffs with the gauges of
--   internal/driver/metrics.go, Stats NodeGetVolumeStats, Prepare the hook Prepare. Every call is one under
--   the lock of its volume.
-- - Driver/Watch: the handlers and the worker of internal/driver/watch.go. What happens between the end of a
--   repair and the worker's look at the clock is an argument of its turn, any change of the state.
-- - Health: internal/health/health.go, the handler of /readyz and Cached, and Probe of
--   internal/driver/identity.go. Their check is any function on a world.
-- - Mountpod/Config: New and imageTag of internal/mountpod/manager.go, and internal/mountpod/config.go (File).
--   Mountpod/Spec/Label is labelValue of internal/mountpod/pod.go.
-- - Main: nodeServer of main.go, what a node plugin is made from.
--
-- Parameters: the retyc process, encoding/json, SHA-256, path, time.ParseDuration, IsValidLabelValue and
-- the Kubernetes API are arguments, and what a theorem asks of them is in its hypotheses: Backend (what
-- the CLI does to datarooms), Serves (PVs and classes), Stack (what umount does to stacked mounts, no call
-- failing), Tracks (the same with calls that fail), Guarded (a property that the calls keep).
--
-- Bounds: the loops of unmount, unmountAll, unstack and ensureMounted are recursion on the turns left, 32, 8,
-- 8 and 4 as in the code. The doubling of restartDelay keeps the wrap-around of an int64. Counters of exits
-- and times are natural numbers: nanoseconds, 0 for the zero time. The decimal digits of a number (strconv)
-- are written on fuel above the number.
--
-- Not modelled: logs, contexts and timeouts (a timeout is a failed call), the text of error messages
-- and of Events beyond what the code reads of it, gRPC and HTTP servers, the informer and the work queue of
-- watch.go (client-go), the construction of the gauges, the flags and servers of main.go, the chart.
pub mod Prelude
pub mod Identity
pub mod Retyc
pub mod Driver
pub mod Controller
pub mod Mountpod
pub mod Mount
pub mod Health
pub mod Main
