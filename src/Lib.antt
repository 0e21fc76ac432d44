-- ===== src/Lib.antt =====
-- A verification library for the edge fleet operator: the two controllers of the operator, which
-- drive devices and firmware rollouts through the Kubernetes API, the agent on a device, which
-- installs firmware into two slots, and the programs that start them.
--
-- The parts and how they interact. A FleetRollout names a firmware version and a share of the fleet
-- that may be upgraded at a time. The rollout controller writes the version into the Spec of
-- devices, a batch at a time, and stops when too many of them fail. The agent of a device sees its
-- Spec, installs the version and reports in its Status. The device controller turns what the agent
-- reports into a phase and keeps a credential for every device.
--
--   Base       names and lemmas that all parts share; Base/Words has Go's int32 and int64,
--              Base/Before the order of its strings
--   Api        api/v1alpha1/edgedevice_types.go and fleetrollout_types.go as records; Api/Client
--              and Api/Machinery are the interfaces of the third-party client and of apimachinery,
--              Api/Recording is a client that keeps the writes, Api/Faithful what a server promises
--              that has no other writer
--   Rollout    internal/controller/fleetrollout_controller.go: `reconcile` is Reconcile,
--              `freeze` and `push` are the two loops that write, `rollouts_for_device` is
--              rolloutsForDevice; Rollout/Fleet has the fleet arithmetic (`tally`) and the statuses
--   Device     internal/controller/edgedevice_controller.go: `reconcile` is Reconcile,
--              `ensure_credential_secret` is ensureCredentialSecret; Device/Status has
--              projectStatus and statusEqual
--   Agent      internal/agent: Agent/Fsm is fsm.go, Agent/Download download.go, Agent/Slots slot.go,
--              Agent/Kube the requests and Agent/Kubeconfig the configuration in kube.go,
--              Agent/Upgrade the disk calls of the installing part of runUpgrade, an intermediate
--              form for the proofs on crashes,
--              Agent/Transaction all of runUpgrade, with the machine, the failed target
--              and the reports, Agent/Guard the poll's evaluate with startUpgrade, and Agent/Loop
--              Run with its goroutines; `power_on` in Agent/Slots is New and the start of Run;
--              Agent/Act is what runUpgrade runs on, Agent/Disk the file system and Agent/Text the
--              text functions that are called
--   Wire       the Spec and the status of a device as JSON, by the struct tags of internal/agent/kube.go and of
--              api/v1alpha1/edgedevice_types.go; Wire/Exchange takes a report of the agent to the
--              controllers, Wire/Mutations has the reports of runUpgrade
--   Commands   cmd: Commands/EdgeAgent is cmd/agent/main.go, from the flags to the exit code,
--              Commands/Paths the joining of paths in it, Commands/Manager is cmd/main.go with
--              SetupWithManager of both controllers, and Commands/FirmwareServer is
--              cmd/firmware-server/main.go
--   Tests      the theorems on concrete fleets, devices, disks and programs
--
-- State and errors. The API server is a client of any behaviour: a world of any type, which each
-- call may change, with an answer that may be an error, so that other writers are part of it. The
-- theorems speak of the writes that a recording client has kept, with their answers. The disk of the
-- agent carries a script that says of each call whether it works, fails or loses the power, and what
-- a write that is cut short leaves; the theorems on crashes hold for every script. A later boot is a
-- run on the disk that is left. The server of a download, the network and the clock are a parameter
-- in the same way. The texts of errors are a function of the reason that is reported with them.
--
-- The goroutines. The steps of the agent are a poll with some device, a heartbeat, and a transaction
-- up to its end. A transaction is one step: a poll and a heartbeat change no file, no state of the
-- machine and no failed target, and what they write to the server is a part of the server's world.
-- Run of Agent/Loop takes the sequence of these events, with the numbers that are drawn for the
-- waits, with what the disk does to the calls that follow, and with the moment at which the context
-- is cancelled. The program then exits, and a transaction that is running gets as far as the script of
-- that moment lets it: `cut_off` leaves the files as they are at that call.
--
-- Bounds. int32 and int64 are bit patterns with their wrap-around written out. The counters are
-- exact for fleets below 2^31 devices, and the test of the circuit breaker for at most 21,474,836,
-- where 100 times a counter still fits. Times are nanoseconds since 1970; below 2^61 no sum of
-- theirs wraps. All loops run over lists, of events too, or over a count of attempts, so that no
-- fuel is needed.
--
-- JSON. A body is a JSON value, not its text. A field is read by its key as the tag spells it; that
-- encoding/json also takes other cases, and the last of two equal keys, does not arise with what the
-- API server sends. Numbers are int64, times on the wire are whole seconds.
--
-- Not modelled: how long a timer takes, the parsing of flags, the queues and caches of
-- controller-runtime, log output, generated code (zz_generated.deepcopy.go), the building of the
-- scheme in groupversion_info.go and the manifests. The time of a condition's last transition is
-- filled in by apimachinery and is left to the interface.
pub mod Agent
pub mod Api
pub mod Base
pub mod Commands
pub mod Device
pub mod Rollout
pub mod Tests
pub mod Wire
