-- ===== src/Examples/Runs.antt =====
-- A run of the actor with one process, `web`, which is spawned and then stopped with all others.
use agent_procs.Prelude.{
  ℕ, ◌+◌, ◌^◌, ◌≤◌, ◌<◌, ◌≡◌, ◌≢◌, refl, Bool, true, false, List, [], ◌∷◌, Option, none, some, Text,
  bytes, arith, inr, unwrap_or, subst,
}
use agent_procs.Prelude.Maps.{Map, lookup, insert}
use agent_procs.Protocol.{RestartPolicy, always}
use agent_procs.Manager.Os.{Os, WaitId}
use agent_procs.Manager.Status.Laws.{live_port}
use agent_procs.Manager.Types.{
  ManagedProcess, Life, running, stopping, park, AfterStop, RespawnReason, Waiter, Incarnation,
  new_manager,
}
use agent_procs.Actor.State.{update_pm, Actor, PmCommand, StopAllBatch, new_actor}
use agent_procs.Actor.Commands.{join_stop, answer_exited, handle_command, handle_spawn, spawn_new}
use agent_procs.Actor.Run.{Reached, Step, Room}
use agent_procs.Actor.Teardown.{finish_teardown}
use agent_procs.Actor.Supersede.{Parks, stop_found-Parks}
use agent_procs.Actor.Safety.{
  never_panics, one_task_while_stopping, restarts_within_max, one_record_per_generation,
}
use agent_procs.Actor.Routes.{UniqueKeys, is_process_exited-publishes}
use agent_procs.Actor.Sound.{names_at}

abbrev pub session : Text
session = bytes "default"

abbrev pub os : Os
os = record {
  waitid = λ pid. WaitId.alive;
  create_file = λ path. none;
  spawn = λ cmd. inr (some 7);
  can_bind = λ port. true;
  create_watcher = λ paths ignore dir. none;
  now = 0;
  log_dir = bytes "logs";
}

abbrev pub policy : RestartPolicy
policy = record { mode = always; max_restarts = some 3; restart_delay_ms = 1000 }

abbrev run_web : PmCommand
run_web = PmCommand.spawn (bytes "serve") (some (bytes "web")) none none none (some policy) none 1

abbrev pub first : Actor
first = new_actor session

abbrev pub with_web : Actor
with_web =
    handle_spawn os (bytes "serve") (some (bytes "web")) none none none (some policy) none 1 first

Room-first : Room first
unfolding new_actor new_manager
Room-first = omega arith

pub Reached-web : Reached session (some with_web)
unfolding handle_command
Reached-web =
    Reached.then first (some with_web) Reached.started (Step.asked os first run_web tt Room-first)

never_panics_example : some with_web ≢ none
never_panics_example = never_panics session (some with_web) Reached-web

abbrev pub web : ManagedProcess
web = record {
  name = bytes "web";
  id = bytes "p1";
  command = bytes "serve";
  cwd = none;
  env = [];
  pid = 7;
  started_at = 0;
  port = none;
  restart_policy = some policy;
  watch_config = none;
  restart_count = 0;
  generation = 1;
  life = running (record { pgid = 7; supervisor_tx = some (bytes "web") });
  watch_handle = false;
}

spawned : (lookup (bytes "web") with_web.pm.processes ≡ some web) × (Room with_web)
unfolding handle_spawn spawn_new new_actor new_manager lookup
    agent_procs.Actor.State.publish_proxy_state agent_procs.Actor.State.ports_eq
    agent_procs.Manager.Spawn.spawn_process agent_procs.Manager.Spawn.spawn_named
    agent_procs.Manager.Names.has_path_parts agent_procs.Prelude.Texts.contains
    agent_procs.Manager.Spawn.resolve_port agent_procs.Manager.Spawn.admit_process
    agent_procs.Manager.Spawn.spawn_incarnation agent_procs.Manager.Spawn.open_sink
    agent_procs.Manager.Os.pgid_from_child agent_procs.Manager.Status.running_ports
    agent_procs.Manager.Table.update insert agent_procs.Prelude.Texts.text_eq
    agent_procs.Prelude.Maps.adjust agent_procs.Prelude.Texts.decimal
    agent_procs.Manager.Types.bump_generation agent_procs.Session.new_counter
    agent_procs.Session.take_id agent_procs.Ports.new_allocator agent_procs.Manager.Status.ports_of
    agent_procs.Manager.Types.leader_alive agent_procs.Manager.Table.update_in
    agent_procs.Manager.Spawn.merged_env agent_procs.Prelude.Texts.starts_with
spawned = (refl, omega arith)

find-web : lookup (bytes "web") with_web.pm.processes ≡ some web
find-web = spawned.0

restarts_within_max_example : web.restart_count ≤ 3
restarts_within_max_example =
    restarts_within_max session with_web (bytes "web") web policy 3 Reached-web find-web refl refl

one_record_per_generation_example : bytes "web" ≡ bytes "web"
one_record_per_generation_example =
    one_record_per_generation session with_web (bytes "web") (bytes "web") web web Reached-web
      find-web find-web refl

abbrev pub stopping_all : Actor
stopping_all = unwrap_or (handle_command os (PmCommand.stop_all 2) with_web) with_web

abbrev pub stopping_web : ManagedProcess
stopping_web = record web { life = stopping none park [] }

abbrev pub batch : StopAllBatch
batch = record { remaining = bytes "web" ∷ []; replies = 2 ∷ [] }

stopping_facts :
    (handle_command os (PmCommand.stop_all 2) with_web ≡ some stopping_all)
    × (lookup (bytes "web") stopping_all.pm.processes ≡ some stopping_web)
    × (stopping_all.stop_all ≡ some batch)
unfolding handle_spawn spawn_new new_actor new_manager lookup
    agent_procs.Actor.State.publish_proxy_state agent_procs.Actor.State.ports_eq
    agent_procs.Manager.Spawn.spawn_process agent_procs.Manager.Spawn.spawn_named
    agent_procs.Manager.Names.has_path_parts agent_procs.Prelude.Texts.contains
    agent_procs.Manager.Spawn.resolve_port agent_procs.Manager.Spawn.admit_process
    agent_procs.Manager.Spawn.spawn_incarnation agent_procs.Manager.Spawn.open_sink
    agent_procs.Manager.Os.pgid_from_child agent_procs.Manager.Status.running_ports
    agent_procs.Manager.Table.update insert agent_procs.Prelude.Texts.text_eq
    agent_procs.Prelude.Maps.adjust agent_procs.Prelude.Texts.decimal
    agent_procs.Manager.Types.bump_generation agent_procs.Session.new_counter
    agent_procs.Session.take_id agent_procs.Ports.new_allocator agent_procs.Manager.Status.ports_of
    agent_procs.Manager.Types.leader_alive agent_procs.Manager.Table.update_in
    agent_procs.Manager.Spawn.merged_env agent_procs.Prelude.Texts.starts_with
    agent_procs.Actor.Teardown.handle_stop_all agent_procs.Actor.Teardown.stop_each
    agent_procs.Actor.State.refresh agent_procs.Manager.Table.refresh_exit_states
    agent_procs.Manager.Table.refresh_all agent_procs.Manager.Table.refresh_life
    agent_procs.Manager.Os.peek_exit agent_procs.Manager.Table.names agent_procs.Manager.Table.find
    agent_procs.Manager.Table.find_in agent_procs.Actor.Teardown.start_teardown
    agent_procs.Manager.Table.any_exited handle_command
stopping_facts = (refl, refl, refl)

stops : handle_command os (PmCommand.stop_all 2) with_web ≡ some stopping_all
stops = stopping_facts.0

pub Room-web : Room with_web
Room-web = spawned.1

pub Reached-stopping : Reached session (some stopping_all)
Reached-stopping =
    Reached.then with_web (some stopping_all) Reached-web
      (subst (Step with_web) stops (Step.asked os with_web (PmCommand.stop_all 2) tt Room-web))

pub find-stopping : lookup (bytes "web") stopping_all.pm.processes ≡ some stopping_web
find-stopping = stopping_facts.1

one_task_while_stopping_example : names_at 1 stopping_all.tasks ≡ bytes "web" ∷ []
one_task_while_stopping_example =
    one_task_while_stopping session stopping_all (bytes "web") stopping_web Reached-stopping
      find-stopping

pub waits : stopping_all.stop_all ≡ some batch
waits = stopping_facts.2

abbrev with_api : Actor
with_api =
    handle_spawn os (bytes "serve") (some (bytes "api")) none none (some 8000) none none 3 with_web

Reached-api : Reached session (some with_api)
unfolding handle_command
Reached-api = Reached.then with_web (some with_api) Reached-web (
    Step.asked os with_web
      (PmCommand.spawn (bytes "serve") (some (bytes "api")) none none (some 8000) none none 3) tt
      Room-web)

api_unique : UniqueKeys with_api.proxy_state
unfolding handle_spawn spawn_new new_actor new_manager lookup
    agent_procs.Actor.State.publish_proxy_state agent_procs.Actor.State.ports_eq
    agent_procs.Manager.Spawn.spawn_process agent_procs.Manager.Spawn.spawn_named
    agent_procs.Manager.Names.has_path_parts agent_procs.Prelude.Texts.contains
    agent_procs.Manager.Spawn.resolve_port agent_procs.Manager.Spawn.admit_process
    agent_procs.Manager.Spawn.spawn_incarnation agent_procs.Manager.Spawn.open_sink
    agent_procs.Manager.Os.pgid_from_child agent_procs.Manager.Status.running_ports
    agent_procs.Manager.Table.update insert agent_procs.Prelude.Texts.text_eq
    agent_procs.Prelude.Maps.adjust agent_procs.Prelude.Texts.decimal
    agent_procs.Manager.Types.bump_generation agent_procs.Session.new_counter
    agent_procs.Session.take_id agent_procs.Ports.new_allocator agent_procs.Manager.Status.ports_of
    agent_procs.Manager.Types.leader_alive agent_procs.Manager.Table.update_in
    agent_procs.Manager.Spawn.merged_env agent_procs.Prelude.Texts.starts_with
api_unique = (refl, tt)

abbrev asked_api : Actor
asked_api = answer_exited os (bytes "api") 5 with_api

asked : handle_command os (PmCommand.is_process_exited (bytes "api") 5) with_api ≡ some asked_api
unfolding handle_command
asked = refl

is_process_exited-publishes_example :
    lookup (bytes "api") asked_api.proxy_state ≡ live_port (bytes "api") asked_api.pm.processes
is_process_exited-publishes_example =
    is_process_exited-publishes session os with_api asked_api (bytes "api") 5 (bytes "api")
      Reached-api api_unique asked

abbrev restarting : Actor
restarting = unwrap_or (handle_command os (PmCommand.restart (bytes "web") 4) with_web) with_web

abbrev restarting_web : ManagedProcess
restarting_web = record web {
  life = stopping none (AfterStop.respawn RespawnReason.manual) (Waiter.restart 4 ∷ []);
}

restart_begins :
    (lookup (bytes "web") restarting.pm.processes ≡ some restarting_web)
    × (restarting.stop_all ≡ none)
unfolding handle_spawn spawn_new new_actor new_manager lookup
    agent_procs.Actor.State.publish_proxy_state agent_procs.Actor.State.ports_eq
    agent_procs.Manager.Spawn.spawn_process agent_procs.Manager.Spawn.spawn_named
    agent_procs.Manager.Names.has_path_parts agent_procs.Prelude.Texts.contains
    agent_procs.Manager.Spawn.resolve_port agent_procs.Manager.Spawn.admit_process
    agent_procs.Manager.Spawn.spawn_incarnation agent_procs.Manager.Spawn.open_sink
    agent_procs.Manager.Os.pgid_from_child agent_procs.Manager.Status.running_ports
    agent_procs.Manager.Table.update insert agent_procs.Prelude.Texts.text_eq
    agent_procs.Prelude.Maps.adjust agent_procs.Prelude.Texts.decimal
    agent_procs.Manager.Types.bump_generation agent_procs.Session.new_counter
    agent_procs.Session.take_id agent_procs.Ports.new_allocator agent_procs.Manager.Status.ports_of
    agent_procs.Manager.Types.leader_alive agent_procs.Manager.Table.update_in
    agent_procs.Manager.Spawn.merged_env agent_procs.Prelude.Texts.starts_with
    agent_procs.Actor.Teardown.handle_stop_all agent_procs.Actor.Teardown.stop_each
    agent_procs.Actor.State.refresh agent_procs.Manager.Table.refresh_exit_states
    agent_procs.Manager.Table.refresh_all agent_procs.Manager.Table.refresh_life
    agent_procs.Manager.Os.peek_exit agent_procs.Manager.Table.names agent_procs.Manager.Table.find
    agent_procs.Manager.Table.find_in agent_procs.Actor.Teardown.start_teardown
    agent_procs.Manager.Table.any_exited handle_command agent_procs.Actor.Commands.handle_restart
restart_begins = (refl, refl)

find-restarting : lookup (bytes "web") restarting.pm.processes ≡ some restarting_web
find-restarting = restart_begins.0

quiet-restarting : restarting.stop_all ≡ none
quiet-restarting = restart_begins.1

stop_found-Parks_example : Parks (bytes "web") none restarting_web (
    finish_teardown os
      (bytes "web")
      1
      none
      (update_pm (bytes "web") (λ q. record q { life = join_stop 5 q.life }) restarting))
stop_found-Parks_example =
    stop_found-Parks os (bytes "web") 5 none restarting
      (update_pm (bytes "web") (λ q. record q { life = join_stop 5 q.life }) restarting)
      restarting_web none (AfterStop.respawn RespawnReason.manual) (Waiter.restart 4 ∷ [])
      quiet-restarting find-restarting refl refl
