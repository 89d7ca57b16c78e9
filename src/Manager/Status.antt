-- ===== src/Manager/Status.antt =====
-- What the daemon reports of its processes.
pub mod Laws
use agent_procs.Prelude.{
  ℕ, ◌-◌, Bool, true, List, [], ◌∷◌, map, Option, none, some, Text, bytes, ltb, if◌then◌else◌,
}
use agent_procs.Prelude.Int.{ℤ}
use agent_procs.Prelude.Maps.{Map, values}
use agent_procs.Prelude.Sort.{sort_by}
use agent_procs.Protocol.{
  ProcessInfo, ProcessState, Response, RestartPolicy, WatchConfig, process_url, RestartMode, always,
  on_failure, never,
}
use agent_procs.Manager.Os.{Os}
use agent_procs.Manager.Types.{
  Life, running, exited, stopping, ExitWhy, ManagedProcess, ProcessManager, leader_alive,
}

abbrev exited_state : ExitWhy → ProcessState
exited_state ExitWhy.exhausted = ProcessState.failed
exited_state ExitWhy.spawn_failed = ProcessState.failed
exited_state ExitWhy.natural = ProcessState.exited
exited_state ExitWhy.manual = ProcessState.exited

-- The `match &p.life`, without its guard.
abbrev life_state : Life → ProcessState × Option ℤ
life_state (exited code why inc timer) = (exited_state why, code)
life_state (stopping (some code) after_stop waiters) = (ProcessState.exited, code)
life_state (stopping none after_stop waiters) = (ProcessState.running, none)
life_state (running inc) = (ProcessState.running, none)

unfoldable pub state_of : Life → ProcessState × Option ℤ
unfolding leader_alive
state_of life = if leader_alive life then (ProcessState.running, none) else life_state life

abbrev policy_max : Option RestartPolicy → Option ℕ
policy_max none = none
policy_max (some rp) = rp.max_restarts

-- The mode as the report spells it.
unfoldable pub mode_label : RestartMode → Text
mode_label always = bytes "always"
mode_label on_failure = bytes "on-failure"
mode_label never = bytes "never"

abbrev policy_name : Option RestartPolicy → Option Text
policy_name none = none
policy_name (some rp) = some (mode_label rp.mode)

abbrev watched_flag : Option WatchConfig → Option Bool
watched_flag none = none
watched_flag (some wc) = some true

unfoldable pub process_info : Os → ManagedProcess → ProcessInfo
unfolding state_of
process_info os p = record {
  name = p.name;
  id = p.id;
  pid = p.pid;
  state = (state_of p.life).0;
  exit_code = (state_of p.life).1;
  uptime_secs = if leader_alive p.life then some (os.now - p.started_at) else none;
  command = p.command;
  port = p.port;
  url = elim p.port [ none ↦ none | some port ↦ some (process_url p.name port none) ];
  restart_count = if ltb 0 p.restart_count then some p.restart_count else none;
  max_restarts = policy_max p.restart_policy;
  restart_policy = policy_name p.restart_policy;
  watched = watched_flag p.watch_config;
}

unfoldable pub build_process_infos : Os → ProcessManager → List ProcessInfo
build_process_infos os m = sort_by (λ i. i.name) (map (process_info os) (values m.processes))

unfoldable pub status_snapshot : Os → ProcessManager → Response
status_snapshot os m = Response.status (build_process_infos os m)

-- `running_ports`: what the proxy routes to.
unfoldable pub ports_of : Map ManagedProcess → Map ℕ
unfolding leader_alive
ports_of [] = []
ports_of ((k, p) ∷ m) =
    let rest = ports_of m in
    if leader_alive p.life then elim p.port [ none ↦ rest | some n ↦ (k, n) ∷ rest ] else rest

unfoldable pub running_ports : ProcessManager → Map ℕ
unfolding ports_of
running_ports m = ports_of m.processes
