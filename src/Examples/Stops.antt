-- ===== src/Examples/Stops.antt =====
-- A stop-all that waits for one process, and one that finds it stopped already.
use agent_procs.Prelude.{
  false, ◌≡◌, refl, ◌⊎◌, [], ◌∷◌, ◌++◌, none, some, bytes, unwrap_or, subst, arith,
}
use agent_procs.Prelude.Maps.{lookup}
use agent_procs.Manager.Types.{ManagedProcess, exited, ExitWhy}
use agent_procs.Actor.State.{Actor, PmCommand, refresh}
use agent_procs.Actor.Commands.{handle_command}
use agent_procs.Actor.Run.{Reached, Step, Room}
use agent_procs.Actor.Cleared.{Gone, stop_finished_clears_dead, stop_all_ends_dead}
use agent_procs.Examples.Runs.{
  session, os, web, with_web, Reached-web, Room-web, stopping_all, stopping_web, batch, waits,
  Reached-stopping, find-stopping,
}

abbrev untracked : Actor
untracked = record stopping_all { tasks = [] }

abbrev cleared : Actor
cleared =
    unwrap_or (handle_command os (PmCommand.stop_finished (bytes "web") 1 none) untracked) untracked

clears :
    (stopping_all.tasks ≡ (bytes "web", 1) ∷ [])
    × (handle_command os (PmCommand.stop_finished (bytes "web") 1 none) untracked ≡ some cleared)
    × (lookup (bytes "web") cleared.pm.processes ≡ none)
unfolding agent_procs.Actor.Commands.handle_spawn agent_procs.Actor.Commands.spawn_new
    agent_procs.Actor.State.new_actor agent_procs.Manager.Types.new_manager lookup
    agent_procs.Actor.State.publish_proxy_state agent_procs.Actor.State.ports_eq
    agent_procs.Manager.Spawn.spawn_process agent_procs.Manager.Spawn.spawn_named
    agent_procs.Manager.Names.has_path_parts agent_procs.Prelude.Texts.contains
    agent_procs.Manager.Spawn.resolve_port agent_procs.Manager.Spawn.admit_process
    agent_procs.Manager.Spawn.spawn_incarnation agent_procs.Manager.Spawn.open_sink
    agent_procs.Manager.Os.pgid_from_child agent_procs.Manager.Status.running_ports
    agent_procs.Manager.Table.update agent_procs.Prelude.Maps.insert
    agent_procs.Prelude.Texts.text_eq agent_procs.Prelude.Maps.adjust
    agent_procs.Prelude.Texts.decimal agent_procs.Manager.Types.bump_generation
    agent_procs.Session.new_counter agent_procs.Session.take_id agent_procs.Ports.new_allocator
    agent_procs.Manager.Status.ports_of agent_procs.Manager.Types.leader_alive
    agent_procs.Manager.Table.update_in agent_procs.Manager.Spawn.merged_env
    agent_procs.Prelude.Texts.starts_with agent_procs.Actor.Teardown.handle_stop_all
    agent_procs.Actor.Teardown.stop_each agent_procs.Actor.State.refresh
    agent_procs.Manager.Table.refresh_exit_states agent_procs.Manager.Table.refresh_all
    agent_procs.Manager.Table.refresh_life agent_procs.Manager.Os.peek_exit
    agent_procs.Manager.Table.names agent_procs.Manager.Table.find agent_procs.Manager.Table.find_in
    agent_procs.Actor.Teardown.start_teardown agent_procs.Manager.Table.any_exited handle_command
    agent_procs.Actor.Commands.handle_stop agent_procs.Actor.Teardown.finish_teardown
    agent_procs.Actor.Teardown.settle agent_procs.Actor.Teardown.leave_batch
    agent_procs.Actor.Teardown.finish_stop_all agent_procs.Actor.Teardown.answer_all
    agent_procs.Actor.Teardown.reply_all agent_procs.Manager.Table.clear
clears = (refl, refl, refl)

stop_finished_clears_dead_example :
    Gone stopping_web.life ⊎ ((bytes "web" ≡ bytes "web") × (stopping_web.generation ≡ 1))
stop_finished_clears_dead_example =
    stop_finished_clears_dead session os stopping_all cleared batch [] [] (bytes "web") 1 none
      (bytes "web") stopping_web Reached-stopping waits clears.0 clears.1 find-stopping clears.2

abbrev stopping_one : Actor
stopping_one = unwrap_or (handle_command os (PmCommand.stop (bytes "web") 6) with_web) with_web

abbrev stopped_one : Actor
stopped_one =
    unwrap_or
      (handle_command os (PmCommand.stop_finished (bytes "web") 1 none)
        (record stopping_one { tasks = [] }))
      stopping_one

abbrev emptied : Actor
emptied = unwrap_or (handle_command os (PmCommand.stop_all 7) stopped_one) stopped_one

abbrev stopped_web : ManagedProcess
stopped_web = record web { life = exited none ExitWhy.manual none false }

stops :
    (handle_command os (PmCommand.stop (bytes "web") 6) with_web ≡ some stopping_one)
    × (stopping_one.tasks ≡ [] ++ (bytes "web", 1) ∷ [])
    × Room stopping_one
    × (handle_command os
          (PmCommand.stop_finished (bytes "web") 1 none)
          (record stopping_one { tasks = [] })
        ≡ some stopped_one)
unfolding agent_procs.Actor.Commands.handle_spawn agent_procs.Actor.Commands.spawn_new
    agent_procs.Actor.State.new_actor agent_procs.Manager.Types.new_manager lookup
    agent_procs.Actor.State.publish_proxy_state agent_procs.Actor.State.ports_eq
    agent_procs.Manager.Spawn.spawn_process agent_procs.Manager.Spawn.spawn_named
    agent_procs.Manager.Names.has_path_parts agent_procs.Prelude.Texts.contains
    agent_procs.Manager.Spawn.resolve_port agent_procs.Manager.Spawn.admit_process
    agent_procs.Manager.Spawn.spawn_incarnation agent_procs.Manager.Spawn.open_sink
    agent_procs.Manager.Os.pgid_from_child agent_procs.Manager.Status.running_ports
    agent_procs.Manager.Table.update agent_procs.Prelude.Maps.insert
    agent_procs.Prelude.Texts.text_eq agent_procs.Prelude.Maps.adjust
    agent_procs.Prelude.Texts.decimal agent_procs.Manager.Types.bump_generation
    agent_procs.Session.new_counter agent_procs.Session.take_id agent_procs.Ports.new_allocator
    agent_procs.Manager.Status.ports_of agent_procs.Manager.Types.leader_alive
    agent_procs.Manager.Table.update_in agent_procs.Manager.Spawn.merged_env
    agent_procs.Prelude.Texts.starts_with agent_procs.Actor.Teardown.handle_stop_all
    agent_procs.Actor.Teardown.stop_each agent_procs.Actor.State.refresh
    agent_procs.Manager.Table.refresh_exit_states agent_procs.Manager.Table.refresh_all
    agent_procs.Manager.Table.refresh_life agent_procs.Manager.Os.peek_exit
    agent_procs.Manager.Table.names agent_procs.Manager.Table.find agent_procs.Manager.Table.find_in
    agent_procs.Actor.Teardown.start_teardown agent_procs.Manager.Table.any_exited handle_command
    agent_procs.Actor.Commands.handle_stop agent_procs.Actor.Teardown.finish_teardown
    agent_procs.Actor.Teardown.settle agent_procs.Actor.Teardown.leave_batch
    agent_procs.Actor.Teardown.finish_stop_all agent_procs.Actor.Teardown.answer_all
    agent_procs.Actor.Teardown.reply_all agent_procs.Manager.Table.clear
stops = (refl, refl, omega arith, refl)

Reached-stopped : Reached session (some stopped_one)
Reached-stopped =
    Reached.then stopping_one (some stopped_one)
      (Reached.then with_web (some stopping_one) Reached-web (
        subst (Step with_web) stops.0
          (Step.asked os with_web (PmCommand.stop (bytes "web") 6) tt Room-web)))
      (subst (Step stopping_one) stops.3
        (Step.finished os stopping_one [] [] (bytes "web") 1 none stops.1 stops.2))

empties :
    (stopped_one.stop_all ≡ none)
    × (handle_command os (PmCommand.stop_all 7) stopped_one ≡ some emptied)
    × (emptied.stop_all ≡ none)
    × (lookup (bytes "web") (refresh os stopped_one).pm.processes ≡ some stopped_web)
unfolding agent_procs.Actor.Commands.handle_spawn agent_procs.Actor.Commands.spawn_new
    agent_procs.Actor.State.new_actor agent_procs.Manager.Types.new_manager lookup
    agent_procs.Actor.State.publish_proxy_state agent_procs.Actor.State.ports_eq
    agent_procs.Manager.Spawn.spawn_process agent_procs.Manager.Spawn.spawn_named
    agent_procs.Manager.Names.has_path_parts agent_procs.Prelude.Texts.contains
    agent_procs.Manager.Spawn.resolve_port agent_procs.Manager.Spawn.admit_process
    agent_procs.Manager.Spawn.spawn_incarnation agent_procs.Manager.Spawn.open_sink
    agent_procs.Manager.Os.pgid_from_child agent_procs.Manager.Status.running_ports
    agent_procs.Manager.Table.update agent_procs.Prelude.Maps.insert
    agent_procs.Prelude.Texts.text_eq agent_procs.Prelude.Maps.adjust
    agent_procs.Prelude.Texts.decimal agent_procs.Manager.Types.bump_generation
    agent_procs.Session.new_counter agent_procs.Session.take_id agent_procs.Ports.new_allocator
    agent_procs.Manager.Status.ports_of agent_procs.Manager.Types.leader_alive
    agent_procs.Manager.Table.update_in agent_procs.Manager.Spawn.merged_env
    agent_procs.Prelude.Texts.starts_with agent_procs.Actor.Teardown.handle_stop_all
    agent_procs.Actor.Teardown.stop_each agent_procs.Actor.State.refresh
    agent_procs.Manager.Table.refresh_exit_states agent_procs.Manager.Table.refresh_all
    agent_procs.Manager.Table.refresh_life agent_procs.Manager.Os.peek_exit
    agent_procs.Manager.Table.names agent_procs.Manager.Table.find agent_procs.Manager.Table.find_in
    agent_procs.Actor.Teardown.start_teardown agent_procs.Manager.Table.any_exited handle_command
    agent_procs.Actor.Commands.handle_stop agent_procs.Actor.Teardown.finish_teardown
    agent_procs.Actor.Teardown.settle agent_procs.Actor.Teardown.leave_batch
    agent_procs.Actor.Teardown.finish_stop_all agent_procs.Actor.Teardown.answer_all
    agent_procs.Actor.Teardown.reply_all agent_procs.Manager.Table.clear
empties = (refl, refl, refl, refl)

stop_all_ends_dead_example : Gone stopped_web.life
stop_all_ends_dead_example =
    stop_all_ends_dead session os stopped_one emptied 7 (bytes "web") stopped_web Reached-stopped
      empties.0 empties.1 empties.2 empties.3
