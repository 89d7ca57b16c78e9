-- ===== src/Lib.antt =====
-- A model of agent-procs, the daemon that runs and supervises the processes of a session, and what
-- is proved of it.
--
-- The program. A daemon (src/daemon) holds the processes of one session. Clients send it requests
-- (src/protocol.rs) over a socket; the proxy and the terminal interface (src/tui) read its state. One
-- task, the actor of src/daemon/actor.rs, owns the table of processes of
-- src/daemon/process_manager.rs and serves its commands one at a time. Stopping a process takes
-- seconds, so the actor hands the live incarnation to a teardown task, which reports back with a
-- command of its own; restart timers and file watchers send commands too. A generation number in
-- each such message tells a stale one from a live one.
--
-- The files.
-- - Prelude: texts (lists of bytes), maps (association lists: the iteration order of a `HashMap`
--   is arbitrary), lists measured by native numbers, tests, sorting.
-- - Protocol: src/protocol.rs.
-- - Session: `IdCounter` of src/session.rs.
-- - Ports: src/daemon/port_allocator.rs. The bind test is a function of the port.
-- - Manager: src/daemon/process_manager.rs. Os holds what one step asks of the system (`waitid`, the
--   file system, `spawn`, the clock, the watcher library), all arbitrary; Types the records; Table
--   lookups and exit states; Spawn `spawn_process` and `respawn`; Status the reports; Restarts the
--   choice of what to restart.
-- - Actor: src/daemon/actor.rs. State holds the actor, with the teardown tasks that it started and
--   its effects (replies, timers, log lines) in the place of channels; Teardown `start_teardown`,
--   `finish_teardown`, `respawn` and `stop-all`; Commands `handle_command` and the refresh tick. A
--   function returns `none` where the source reaches `unreachable!`. Run is the relation of one turn
--   of the loop and of what can be reached; Sound, with its children, is the invariant and the proof
--   that every handler keeps it; Safety draws the conclusions; Cleared is about the end of a
--   stop-all, Routes about what the proxy is told, and Supersede about a stop that overrides a restart.
-- - Logs: src/daemon/log_index.rs, with a file as the list of its bytes; Files is a directory, and
--   Lines how the standard library cuts a file into lines.
-- - Tui/Buffer: `OutputBuffer` of src/tui/app.rs.
-- - Config: `startup_order` of src/config.rs. Its loop has fuel for one round more than there are
--   processes, and a theorem says that this is enough.
-- - Proxy: the routing of a request by its Host header, of src/daemon/proxy.rs.
-- - Tui/Disk: src/tui/disk_log_reader.rs. Segment reads one log file by its index, Spans and Lookup
--   windows and single lines over rotated files, Discover finds the segments and caches them, Scan
--   and Merge are the filtered and the interleaved views. Files are lists of bytes by path, which
--   stay as they are, with the clock, during one operation; reads of a present file succeed. The
--   search for rotated files has one round for each file of the directory, and the scan in chunks
--   one for each line.
-- - Tui/App: the state of the terminal interface, src/tui/app.rs: Move is selection and scrolling,
--   Lines the counts and windows of lines, Filter the filter and its index; OnDisk, Window,
--   Rescan, Scroll and Steady are proofs. Tui/Keys is src/tui/input.rs, and Tui/Events what src/tui/event_loop.rs does
--   with an event; the requests that it sends are effects, and its characters are encoded in UTF-8.
-- - Logs/Writer: src/daemon/log_writer.rs. A writer knows at which path its open index stands, so that
--   a rotation that cannot make the new files is followed too. Entries says when a log and its index
--   agree; the modules below Writer are proofs. The index writer's buffer of 8 KiB is never
--   full, since it is flushed every 64 records of 16 bytes.
-- - Wait: `wait_for` of src/daemon/wait_engine.rs, as a function of the events that arrive, in
--   that order, with their times in milliseconds, against one timer; where both come at the same
--   moment the timer wins. A regular expression is an arbitrary test.
-- - Examples: the theorems at concrete inputs.
--
-- Bounds. Generations are 64-bit and restart counts and ids 32-bit, with the wrap-around written
-- out; a run takes a step that may issue a generation only while one is left, since a daemon does
-- not live through 2 ^ 64 spawns. The port scan runs for the 1000 rounds of the source's loop. Config
-- and Tui/Disk have fuel, as said above; a printed number has 20 digits at most below 2 ^ 64.
--
-- A timer or a watcher is an effect of the actor, and its message may come at any later step, any
-- number of times. A step with such a message has the premise that the record that its name and
-- generation reach carries that name (`IssuedFor` of Actor/Sound/Handlers.antt).
--
-- Not modelled: the signals and the grace period inside a teardown task, the capture tasks and their
-- channels, sockets, forking, JSON, YAML, HTTP, globs and drawing, which are system calls, timers or
-- other libraries'.
pub mod Prelude
pub mod Protocol
pub mod Session
pub mod Ports
pub mod Config
pub mod Manager
pub mod Actor
pub mod Logs
pub mod Proxy
pub mod Tui
pub mod Wait
pub mod Examples
