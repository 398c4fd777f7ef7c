-- ===== src/Server.antt =====
-- The handlers of the CUSE device that open and close handles or act on one that is open
-- (vuinputd/src/cuse_device/vuinput_open.rs, vuinput_release.rs, and the first lines of
-- vuinput_read.rs, vuinput_write.rs and vuinput_poll.rs), over the state of the daemon. The daemon
-- serves its requests one at a time (libfuse runs with -s).
pub mod Runs
pub mod Opening
pub mod Watcher
pub mod Life
pub mod Handles
use vuinputd.Prelude.{
  ℕ, ◌+◌, ◌%◌, ◌^◌, Bool, true, false, not, ◌&&◌, Option, none, some, List, [], ◌∷◌, ◌++◌, ltb,
  if◌then◌else◌,
}
use vuinputd.Prelude.Text.{Text}
use vuinputd.Fuse.{Errno, FuseCall, reply_open, reply_err, Outcome, panicked, returned, ◌>>=◌}
use vuinputd.Input.{new_key_tracker}
use vuinputd.Policy.{DevicePolicy}
use vuinputd.Poll
use vuinputd.Poll.{PollState, ReadResult, new_poll_state, drop_poll_state, watch_event}
use vuinputd.Process.{Namespaces, RequestingProcess, equal_mnt_and_net}
use vuinputd.Device.{Uinput, VuInputDevice, VuInputState, JobRequest, remove_device}
use vuinputd.Registry.{
  Registry, Result, ok, err, unwrap, get_vuinput_state, insert_vuinput_state, remove_vuinput_state,
  store,
}
use vuinputd.Write.Handler
use vuinputd.Write.Handler.{Written}
use vuinputd.Ioctl.Handler as IoctlHandler
use vuinputd.Ioctl.Handler.{Host, IoctlCall, Handled, remove_jobs}

abbrev pub u64_mod : ℕ
u64_mod = 18446744073709551616

module _ (U : Uinput) where
  -- The globals that the handlers change, the kernel, the jobs dispatched, oldest first, and the
  -- calls made into libfuse.
  pub record Daemon : Type 0 where
    pub states : Registry
    pub counter : ℕ
    pub last_error : Option ℕ
    pub kernel : U.Kernel
    pub dispatched : List JobRequest
    pub calls : List FuseCall

  -- `ctr.fetch_add(1, …)` of a u64.
  get_fresh_filehandle : Daemon → ℕ × Daemon
  get_fresh_filehandle d = (d.counter, record d { counter = (d.counter + 1) % u64_mod })

  -- `EvdevWriteWatcher::add_device`, unwrapped.
  add_device : ℕ → Daemon → Outcome Daemon
  add_device fh d = unwrap (get_vuinput_state fh d.states) >>= λ s.
      (let (k, done) = U.epoll_add s.file fh d.kernel in
        if done then returned (record d { kernel = k }) else panicked)

  -- The two arms of the `match` on the opening of /dev/uinput.
  opened : ℕ → RequestingProcess → Option ℕ → Daemon → Outcome Daemon
  unfolding add_device
  opened fh requesting_process none d =
      returned (record d { calls = d.calls ++ (reply_err Errno.enoent ∷ []) })
  opened fh requesting_process (some file) d =
      unwrap (
        insert_vuinput_state fh
          (record {
            file = file;
            requesting_process = requesting_process;
            input_device = none;
            keytracker = new_key_tracker;
            poll = new_poll_state;
          })
          d.states)
      >>= λ states. add_device fh (record d { states = states }) >>= λ d'.
          returned (record d' { calls = d'.calls ++ (reply_open fh ∷ []) })

  -- The pid of the caller is an i32, given by its bit pattern; a negative one panics.
  unfoldable pub vuinput_open : (ℕ → Outcome RequestingProcess) → ℕ → Daemon → Outcome Daemon
  unfolding get_fresh_filehandle opened
  vuinput_open get_requesting_process pid d =
      if ltb pid 2147483648
      then (let (fh, d') = get_fresh_filehandle d in
          get_requesting_process pid >>= λ requesting_process.
          (let (k, file) = U.open_uinput d'.kernel in
            opened fh requesting_process file (record d' { kernel = k })))
      else panicked

  -- The end of `vuinput_release`: the device leaves the watcher, its state is dropped (the file is
  -- closed, a pending poll is notified), and the kernel is answered.
  released : Namespaces → VuInputState → Daemon → Outcome Daemon
  unfolding remove_jobs
  released self_namespaces s d =
      let jobs = remove_jobs self_namespaces s s.input_device in
      let (k, done) = U.epoll_delete s.file d.kernel in
      if done
      then returned (record d {
        dispatched = d.dispatched ++ jobs;
        kernel = U.close s.file k;
        calls = d.calls ++ (drop_poll_state s.poll ++ (reply_err Errno.success ∷ []));
      })
      else panicked

  unfoldable pub vuinput_release : Namespaces → ℕ → Daemon → Outcome Daemon
  unfolding released
  vuinput_release self_namespaces fh d =
      unwrap (remove_vuinput_state fh d.states) >>= λ (s, states).
      released self_namespaces s (record d { states = states })

  -- A handler that locks the state of an open handle and writes it back.
  abbrev with_state : ℕ → (VuInputState → Daemon → Outcome Daemon) → Daemon → Outcome Daemon
  with_state fh handler d = unwrap (get_vuinput_state fh d.states) >>= λ s. handler s d

  unfoldable pub handle_write : DevicePolicy → ℕ → ℕ → List ℕ → Daemon → Outcome Daemon
  handle_write policy fh off buf = with_state fh λ s d.
      Handler.vuinput_write U policy fh off buf s d.last_error d.kernel >>= λ w.
      returned (record d {
        states = store fh w.state d.states;
        last_error = w.last_error;
        kernel = w.kernel;
        calls = d.calls ++ w.calls;
      })

  unfoldable pub handle_ioctl : Host → ℕ → IoctlCall → Daemon → Outcome Daemon
  handle_ioctl host fh call = with_state fh λ s d.
      IoctlHandler.vuinput_ioctl U host call s d.kernel >>= λ h. returned (record d {
        states = store fh h.state d.states;
        kernel = h.kernel;
        dispatched = d.dispatched ++ h.jobs;
        calls = d.calls ++ h.calls;
      })

  unfoldable pub handle_read : ℕ → ℕ → Daemon → Outcome Daemon
  handle_read fh off = with_state fh λ s d.
      (let (k, result) = U.read s.file d.kernel in
        Poll.vuinput_read off s.requesting_process.is_compat result s.poll >>= λ (p, calls).
        returned (record d {
          states = store fh (record s { poll = p }) d.states;
          kernel = k;
          calls = d.calls ++ calls;
        }))

  unfoldable pub handle_poll : ℕ → Option ℕ → Daemon → Outcome Daemon
  handle_poll fh ph = with_state fh λ s d.
      (let (p, calls) = Poll.vuinput_poll ph s.poll in
        returned (record d {
          states = store fh (record s { poll = p }) d.states;
          calls = d.calls ++ calls;
        }))

  -- One event in the loop of the watcher. A handle that is not open any more is passed over.
  watch_state : ℕ → Result VuInputState → Daemon → Daemon
  watch_state fh (err e) d = d
  watch_state fh (ok s) d =
      let (p, calls) = watch_event s.poll in
      record d { states = store fh (record s { poll = p }) d.states; calls = d.calls ++ calls }

  unfoldable pub handle_watch : ℕ → Daemon → Daemon
  unfolding watch_state
  handle_watch fh d = watch_state fh (get_vuinput_state fh d.states) d
