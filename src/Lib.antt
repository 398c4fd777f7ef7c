-- ===== src/Lib.antt =====
-- vuinputd lets programs in containers create input devices. It makes a CUSE device that looks like
-- /dev/uinput, forwards what clients ask of it to the host's /dev/uinput, filters the events that
-- they write, and places device nodes and udev data where the container sees them.
--
-- The parts and their files (paths from the root of the repository):
--
-- * A client opens the device, and the daemon serves its requests one at a time (libfuse runs with
--   -s). Server models vuinputd/src/cuse_device/vuinput_open.rs, vuinput_release.rs and the first
--   lines of the other handlers over the state of the daemon: `vuinput_open`, `vuinput_release`,
--   `handle_write`, `handle_read`, `handle_poll`, `handle_ioctl`, and `handle_watch` for an event of
--   the watcher. Server/Runs has the requests as data; Server/Handles is about sequences of them.
--   Server/Life has what main starts and shuts down around them, with the dispatcher.
-- * Registry models the map of open devices of vuinputd/src/cuse_device/state.rs, and Device the
--   state of one, with the interface `Uinput` to the kernel's /dev/uinput.
-- * Write models vuinput_write.rs: Write/Bytes the layouts of `input_event`, Write/Loop the loop over
--   the entries, Write/Legacy the setup by a write, Write/Handler the handler. Policy models
--   device_policy.rs, which the loop asks for every entry. Input has the events and key codes.
-- * Poll models the poll state of state.rs with vuinput_poll.rs, vuinput_read.rs and the loop of
--   evdev_write_watcher.rs, and what they do with the poll handles of libfuse.
-- * Ioctl models vuinput_ioctl.rs and the request codes of uinput-ioctls/src/lib.rs: Ioctl/Codes the
--   recognition of a command, Ioctl/Mapping the buffers that are still to be mapped, Ioctl/Lookup the
--   search for the node of a new device, Ioctl/Handler the commands.
-- * Server/Watcher models the flag and the handle by which the thread of evdev_write_watcher.rs is
--   ended. What the thread does for one event is `handle_watch`, which may come between any requests.
-- * Process models vuinputd/src/process_tools: the namespaces of a client (Process/Links), the root
--   process of its container (Process/Ancestry), the maps of user numbers (Process/IdMap), how a child
--   process enters namespaces (Process/Enter) and how it is waited for (Process/Await).
-- * An ioctl that makes or ends a device of a container dispatches jobs. Jobs/Dispatcher models
--   vuinputd/src/job_engine/job.rs, Jobs/Engine the tasks of its thread and how they are ended, and
--   Jobs/Closure closure_job.rs. Jobs/Emit and Jobs/Remove model the jobs of vuinputd/src/jobs,
--   Jobs/Awaiter how a handler waits for one (Jobs/Awaiter/Bodies: with the states that the jobs set;
--   Jobs/Awaiter/Threads: as steps of the two threads).
--   Events models the store of monitor_udev_job.rs, from which the jobs take what udev announced,
--   Events/History what it knows of one device, and Events/Monitor the loop that fills it.
-- * A job injects the device by a strategy. Inject/Strategy models vuinputd/src/container_runtime,
--   Inject/Actions the actions of vuinputd/src/actions that a child process carries out in the
--   container, and Inject/Nodes, Inject/RuntimeData, Inject/Netlink and Inject/HostFs what they do
--   (vuinputd/src/input_realizer).
-- * Args models the command line of vuinputd/src/main.rs with its checks, Args/Main what main does
--   with it, and Args/Child the command line of a child process. Config models
--   vuinputd/src/global_config.rs, VtTools vuinputd/src/vt_tools.rs.
-- * Client models the client that the tests have (vuinputd-tests/src/devices/device_base.rs),
--   Client/Devices and Client/ForceFeedback its devices, Client/Scenarios the basic scenarios, and
--   Client/Programs test-keyboard.rs and the examples of vuinput-examples. Client/Transparent
--   and Client/Delivered put the requests and the events of a client through the daemon.
-- * Harness models what the tests run around a client: bwrap.rs, podman.rs, run_vuinputd.rs and the
--   channel ipc.rs of vuinputd-tests/src.
-- * Prelude has what the modules share: lists, texts and maps over the native numbers. Tests has runs
--   at concrete inputs.
--
-- How the code is read: a function that can panic gives an `Outcome`, one that returns a result gives
-- an option or a type with the errors of the source, and a handler gives the new state, the new state
-- of the kernel and the calls it makes into libfuse, in their order. The kernel, /proc, the file
-- system, udev, libfuse, the clock and the Incus tool are not part of the program: they are
-- parameters. A mutex is held for one request. The threads of the dispatcher and of the watcher take
-- their steps between requests; that of the dispatcher begins at any time after it is created. The handlers dispatch their jobs; that they wait is in
-- Jobs/Awaiter. Machine integers wrap as in a release build: u64 for handles and id maps, u32 for
-- the lengths of messages and the numbers of an ioctl.
--
-- Bounds: the climb to the root of a container runs on fuel, and one round more than the client has
-- ancestors is enough; the write loop runs on the length of the buffer, of which every round takes
-- an entry; the wait for udev has the 50 attempts of the source. The counter of handles starts at 3
-- and is taken to stay below 2^64.
--
-- Not modelled: the loop of the watcher's thread around its wait; the bindings to libfuse (cuse-lowlevel); the logger, and the C strings that main makes
-- for libfuse; the parsing of options, which a library derives; the scenario with force feedback, in
-- which two threads share a descriptor; the tests that run programs in sandboxes; the pauses of the
-- test programs and examples.
mod Prelude
pub mod Input
pub mod Policy
pub mod Fuse
pub mod Poll
pub mod Process
pub mod Device
pub mod Write
pub mod Events
pub mod Registry
pub mod Inject
pub mod Ioctl
pub mod Jobs
pub mod Args
pub mod Config
pub mod VtTools
pub mod Server
pub mod Client
pub mod Harness
mod Tests
