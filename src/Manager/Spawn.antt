-- ===== src/Manager/Spawn.antt =====
-- Starting a process: `spawn_incarnation`, `spawn_process`, `respawn`, and the log files they open.
use agent_procs.Prelude.{
  ℕ, false, not, ◌&&◌, List, [], ◌∷◌, ◌++◌, Option, none, some, ◌⊎◌, inl, inr, Text, bytes, decimal,
  if◌then◌else◌, unwrap_or,
}
use agent_procs.Prelude.Int.{ℤ}
use agent_procs.Prelude.Maps.{Map, lookup, insert, has_key}
use agent_procs.Protocol.{Response, general, not_found, process_url}
use agent_procs.Session.{take_id}
use agent_procs.Ports.{PortAllocator, auto_assign_port}
use agent_procs.Manager.Os.{Os, Command, pgid_from_child}
use agent_procs.Manager.Types.{
  Incarnation, Life, running, exited, stopping, ExitWhy, ManagedProcess, ProcessManager, holds_port,
  bump_generation,
}
use agent_procs.Manager.Names.{is_valid_dns_label, has_path_parts}

-- `LogSink::open` of src/daemon/log_writer.rs, for its error alone.
unfoldable pub open_sink : Os → Text → Option Text
open_sink os path = elim (os.create_file path) [
  | some e ↦ some (bytes "cannot open log " ++ path ++ bytes ": " ++ e)
  | none ↦ elim (os.create_file (path ++ bytes ".idx")) [
    | some e ↦ some (bytes "cannot open log " ++ path ++ bytes ".idx: " ++ e)
    | none ↦ none
  ]
]

abbrev insert_all : Map Text → Map Text → Map Text
insert_all [] base = base
insert_all ((k, v) ∷ m) base = insert_all m (insert k v base)

-- The variables handed to the child: PORT and HOST, unless the user sets them.
unfoldable pub merged_env : Option (Map Text) → Option ℕ → Map Text
merged_env env none = unwrap_or env []
merged_env env (some p) =
    insert_all (unwrap_or env [])
      (insert (bytes "HOST") (bytes "127.0.0.1") (insert (bytes "PORT") (decimal p) []))

abbrev log_path : Os → Text → Text → Text
log_path os name stream = os.log_dir ++ bytes "/" ++ name ++ bytes "." ++ stream

abbrev pub start_child : Os → Text → Command → Text ⊎ (Incarnation × ℕ)
start_child os name cmd = elim (os.spawn cmd) [
  | inl e ↦ inl (bytes "failed to spawn: " ++ e)
  | inr child ↦ elim (pgid_from_child child) [
    | none ↦ inl (bytes "spawned process has no pid")
    | some group ↦ inr (record { pgid = group; supervisor_tx = some name }, unwrap_or child 0)
  ]
]

unfoldable pub spawn_incarnation :
    Os → Text → Text → Option Text → Option (Map Text) → Option ℕ → Text ⊎ (Incarnation × ℕ)
spawn_incarnation os name command cwd env port =
    elim (open_sink os (log_path os name (bytes "stdout"))) [
      | some e ↦ inl e
      | none ↦ elim (open_sink os (log_path os name (bytes "stderr"))) [
        | some e ↦ inl e
        | none ↦
            start_child os name (record { shell = command; dir = cwd; envs = merged_env env port })
      ]
    ]

-- The ports of the records that still hold one.
unfoldable pub assigned_ports : Map ManagedProcess → List ℕ
assigned_ports [] = []
assigned_ports ((k, p) ∷ m) =
    let rest = assigned_ports m in
    if holds_port p.life then elim p.port [ none ↦ rest | some n ↦ n ∷ rest ] else rest

abbrev some_port : (Text ⊎ ℕ) × PortAllocator → (Text ⊎ Option ℕ) × PortAllocator
some_port (inl e, a) = (inl e, a)
some_port (inr p, a) = (inr (some p), a)

-- The port of a new process: the given one, an automatic one behind the proxy, or none.
unfoldable pub resolve_port : Os → ProcessManager → Option ℕ → (Text ⊎ Option ℕ) × PortAllocator
unfolding assigned_ports
resolve_port os m (some p) = (inr (some p), m.port_allocator)
resolve_port os m none =
    if m.port_allocator.proxy_enabled
    then some_port (auto_assign_port os.can_bind (assigned_ports m.processes) m.port_allocator)
    else (inr none, m.port_allocator)

abbrev pub fail : Text → Response
fail = Response.error general

abbrev pub fresh_process :
    Os
    → Text
    → Text
    → Text
    → Option Text
    → Option (Map Text)
    → Option ℕ
    → ℕ
    → Incarnation × ℕ
    → ManagedProcess
fresh_process os name id command cwd env port generation (inc, pid) = record {
  name = name;
  id = id;
  command = command;
  cwd = cwd;
  env = unwrap_or env [];
  pid = pid;
  started_at = os.now;
  port = port;
  restart_policy = none;
  watch_config = none;
  restart_count = 0;
  generation = generation;
  life = running inc;
  watch_handle = false;
}

abbrev url_of : Text → Option ℕ → Option Text
url_of name none = none
url_of name (some p) = some (process_url name p none)

-- The record of a spawned process, under its generation.
abbrev pub admit_with :
    Os
    → ProcessManager
    → Text
    → Text
    → Text
    → Option Text
    → Option (Map Text)
    → Option ℕ
    → Text ⊎ (Incarnation × ℕ)
    → Response × ProcessManager
admit_with os m id name command cwd env port (inl message) = (fail message, m)
admit_with os m id name command cwd env port (inr (inc, pid)) =
    let m' = bump_generation m in
    (
      Response.run_ok name id pid port (url_of name port),
      record m' {
        processes =
            insert name
              (fresh_process os name id command cwd env port m'.next_generation (inc, pid))
              m.processes;
      },
    )

-- The part of `spawn_process` from the check for an existing record on.
unfoldable pub admit_process :
    Os
    → ProcessManager
    → Text
    → Text
    → Text
    → Option Text
    → Option (Map Text)
    → Option ℕ
    → Response × ProcessManager
unfolding bump_generation
admit_process os m id name command cwd env port =
    if has_key name m.processes
    then (fail (bytes "process already exists: " ++ name), m)
    else admit_with os m id name command cwd env port
        (spawn_incarnation os name command cwd env port)

abbrev pub spawn_resolved :
    Os
    → ProcessManager
    → Text
    → Text
    → Text
    → Option Text
    → Option (Map Text)
    → (Text ⊎ Option ℕ) × PortAllocator
    → Response × ProcessManager
spawn_resolved os m id name command cwd env (inl e, a) = (fail e, record m { port_allocator = a })
spawn_resolved os m id name command cwd env (inr p, a) =
    admit_process os (record m { port_allocator = a }) id name command cwd env p

-- The checks of `spawn_process` on the name.
unfoldable pub spawn_named :
    Os
    → ProcessManager
    → Text
    → Text
    → Text
    → Option Text
    → Option (Map Text)
    → Option ℕ
    → Response × ProcessManager
spawn_named os m id name command cwd env port =
    if has_path_parts name
    then (fail (bytes "invalid process name: " ++ name), m)
    else if m.port_allocator.proxy_enabled && not (is_valid_dns_label name)
    then (
      fail (
          bytes "invalid process name for proxy: '"
          ++ name
          ++ bytes "' (must be lowercase alphanumeric/hyphens, max 63 chars)"),
      m,
    )
    else spawn_resolved os m id name command cwd env (resolve_port os m port)

unfoldable pub spawn_process :
    Os
    → ProcessManager
    → Text
    → Option Text
    → Option Text
    → Option (Map Text)
    → Option ℕ
    → Response × ProcessManager
unfolding take_id
spawn_process os m command given cwd env port =
    let (id, counter) = take_id m.id_counter in
    spawn_named os (record m { id_counter = counter }) id (unwrap_or given id) command cwd env port

abbrev pub env_opt : Map Text → Option (Map Text)
env_opt [] = none
env_opt (e ∷ m) = some (e ∷ m)

abbrev last_code : Life → Option ℤ
last_code (running inc) = none
last_code (exited code why inc timer) = code
last_code (stopping leader_exit after_stop waiters) = none

abbrev pub respawned : Os → Text → ℕ → Incarnation × ℕ → ManagedProcess → ManagedProcess
respawned os id generation (inc, pid) p = record p {
  id = id;
  pid = pid;
  started_at = os.now;
  generation = generation;
  life = running inc;
}

abbrev pub not_respawned : ManagedProcess → ManagedProcess
not_respawned p = record p {
  pid = 0;
  life = exited (last_code p.life) ExitWhy.spawn_failed none false;
}

-- The `match spawned` of `respawn`.
abbrev pub respawn_with :
    Os
    → ProcessManager
    → Text
    → Text
    → ManagedProcess
    → Text ⊎ (Incarnation × ℕ)
    → Response × ProcessManager
respawn_with os m name id p (inr (inc, pid)) = (
  Response.run_ok name id pid p.port (url_of name p.port),
  record m { processes = insert name (respawned os id m.next_generation (inc, pid) p) m.processes },
)
respawn_with os m name id p (inl message) =
    (fail message, record m { processes = insert name (not_respawned p) m.processes })

-- `respawn`, once `p` is found under `name`. The rotation of the logs is an effect of the actor.
unfoldable pub respawn_found :
    Os → ProcessManager → Text → ManagedProcess → Response × ProcessManager
unfolding bump_generation take_id
respawn_found os m name p =
    let (id, counter) = take_id m.id_counter in
    respawn_with os (record (bump_generation m) { id_counter = counter }) name id p
      (spawn_incarnation os name p.command p.cwd (env_opt p.env) p.port)

abbrev respawn_if : Os → ProcessManager → Text → Option ManagedProcess → Response × ProcessManager
respawn_if os m name none = (Response.error not_found (bytes "process not found: " ++ name), m)
respawn_if os m name (some p) = respawn_found os m name p

unfoldable pub respawn : Os → ProcessManager → Text → Response × ProcessManager
respawn os m name = respawn_if os m name (lookup name m.processes)
