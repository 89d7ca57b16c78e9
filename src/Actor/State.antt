-- ===== src/Actor/State.antt =====
-- The state of the actor, its effects, and what it publishes to the proxy.
use agent_procs.Prelude.{
  ℕ, Bool, true, false, ◌&&◌, List, [], ◌∷◌, ◌++◌, map, Option, none, some, Text, bytes, ◌==◌,
  every, length, if◌then◌else◌,
}
use agent_procs.Prelude.Int.{ℤ}
use agent_procs.Prelude.Maps.{Map, lookup}
use agent_procs.Protocol.{
  Response, general, not_found, RestartPolicy, WatchConfig, ProcessInfo, process_url,
}
use agent_procs.Manager.Os.{Os}
use agent_procs.Manager.Types.{ProcessManager, ManagedProcess, new_manager}
use agent_procs.Manager.Table.{find, update, refresh_exit_states}
use agent_procs.Manager.Status.{running_ports, status_snapshot as snapshot}

-- A command, with the number of the request where the source has its reply channel.
pub data PmCommand : Type 0 where
  spawn :
      (command : Text) (name cwd : Option Text) (env : Option (Map Text)) (port : Option ℕ)
      (restart : Option RestartPolicy) (watch : Option WatchConfig) (reply : ℕ)
      → PmCommand
  stop : (target : Text) (reply : ℕ) → PmCommand
  stop_all : (reply : ℕ) → PmCommand
  restart : (target : Text) (reply : ℕ) → PmCommand
  status : (reply : ℕ) → PmCommand
  status_snapshot : (reply : ℕ) → PmCommand
  has_process : (target : Text) (reply : ℕ) → PmCommand
  session_name : (reply : ℕ) → PmCommand
  is_process_exited : (target : Text) (reply : ℕ) → PmCommand
  enable_proxy : (proxy_port reply : ℕ) → PmCommand
  subscribe : (reply : ℕ) → PmCommand
  auto_restart : (name : Text) (generation : ℕ) → PmCommand
  watch_restart : (name : Text) (generation : ℕ) → PmCommand
  stop_finished : (name : Text) (generation : ℕ) (code : Option ℤ) → PmCommand

pub data Reply : Type 0 where
  response : Response → Reply
  flag : Bool → Reply
  session_reply : Text → Reply
  exit : Option (Option ℤ) → Reply
  enabled : Option ℕ → Reply
  receiver : Reply

pub data Effect : Type 0 where
  replied : ℕ → Reply → Effect
  scheduled : (name : Text) (generation delay_ms : ℕ) → Effect
  watching : (name : Text) (generation : ℕ) → Effect
  noted : (log message : Text) → Effect  -- `try_send` to a supervisor channel
  broadcast : (process line : Text) → Effect
  rotated : (name : Text) → Effect

pub record StopAllBatch : Type 0 where
  pub remaining : List Text
  pub replies : List ℕ

pub record Actor : Type 0 where
  pub pm : ProcessManager
  pub proxy_state : Map ℕ
  pub proxy_port : Option ℕ
  pub stop_all : Option StopAllBatch
  pub tasks : List (Text × ℕ)  -- the teardown tasks started, by name and generation
  pub effects : List Effect  -- newest first

unfoldable pub new_actor : Text → Actor
unfolding new_manager
new_actor session = record {
  pm = new_manager session;
  proxy_state = [];
  proxy_port = none;
  stop_all = none;
  tasks = [];
  effects = [];
}

abbrev pub emit : Effect → Actor → Actor
emit e a = record a { effects = e ∷ a.effects }

abbrev pub send : ℕ → Reply → Actor → Actor
send r x = emit (replied r x)

abbrev pub emit_all : List Effect → Actor → Actor
emit_all es a = record a { effects = es ++ a.effects }

abbrev pub actor_error : Text → Response
actor_error = Response.error general

abbrev pub stop_all_in_progress : Response
stop_all_in_progress = actor_error (bytes "stop-all in progress")

abbrev pub not_found_error : Text → Response
not_found_error target = Response.error not_found (bytes "process not found: " ++ target)

abbrev pub stopped : Text → Response
stopped name = Response.ok (bytes "stopped " ++ name)

abbrev pub same_port : Option ℕ → ℕ → Bool
same_port none p = false
same_port (some q) p = q == p

-- The guard `if self.stop_all.is_some() { .. }`.
abbrev pub unless_busy {ℓ} : {A : Type ℓ} → Option StopAllBatch → A → A → A
unless_busy (some batch) refused go = refused
unless_busy none refused go = go

-- `==` of two `HashMap`s.
unfoldable pub ports_eq : Map ℕ → Map ℕ → Bool
ports_eq a b = length a == length b && every (λ e. same_port (lookup e.0 b) e.1) a

unfoldable pub publish_proxy_state : Actor → Actor
publish_proxy_state a =
    let ports = running_ports a.pm in
    if ports_eq a.proxy_state ports then a else record a { proxy_state = ports }

abbrev pub update_pm : Text → (ManagedProcess → ManagedProcess) → Actor → Actor
update_pm name f a = record a { pm = update a.pm name f }

abbrev rewrite_url : Option ℕ → ProcessInfo → ProcessInfo
rewrite_url none i = i
rewrite_url (some pp) i = elim i.port [
  | none ↦ i
  | some port ↦ record i { url = some (process_url i.name port (some pp)) }
]

unfoldable pub rewrite_urls : Option ℕ → Response → Response
rewrite_urls proxy_port (Response.status processes) =
    Response.status (map (rewrite_url proxy_port) processes)
rewrite_urls proxy_port r = r

unfoldable pub refresh : Os → Actor → Actor
refresh os a = record a { pm = (refresh_exit_states os a.pm).0 }

-- `build_status`, which refreshes the exit states first.
unfoldable pub build_status : Os → Actor → Response × Actor
build_status os a =
    let b = refresh os a in
    let c = if (refresh_exit_states os a.pm).1 then publish_proxy_state b else b in
    (rewrite_urls c.proxy_port (snapshot os c.pm), c)

abbrev pub watch_error : ManagedProcess → ManagedProcess
watch_error p = record p { watch_config = none }

abbrev pub watch_on : ManagedProcess → ManagedProcess
watch_on p = record p { watch_handle = true }

abbrev dot_default : Option Text → Text
dot_default none = bytes "."
dot_default (some d) = d

abbrev pub watch_started : Text → ManagedProcess → Option Text → Actor → Option Text × Actor
watch_started name p none a = (none, emit (watching name p.generation) (update_pm name watch_on a))
watch_started name p (some e) a = (some e, update_pm name watch_error a)

abbrev pub watch_config_of :
    Os → Text → ManagedProcess → Option WatchConfig → Actor → Option Text × Actor
watch_config_of os name p none a = (none, a)
watch_config_of os name p (some wc) a =
    watch_started name p (os.create_watcher wc.paths wc.ignore (dot_default p.cwd)) a

abbrev pub watch_found : Os → Text → Option ManagedProcess → Actor → Option Text × Actor
watch_found os name none a = (none, a)
watch_found os name (some p) a = watch_config_of os name p p.watch_config a

-- `setup_watcher`: its error, if any.
unfoldable pub setup_watcher : Os → Text → Actor → Option Text × Actor
setup_watcher os name a = watch_found os name (find a.pm name) a
