-- ===== src/Actor/Commands.antt =====
-- `handle_command`, the restart scheduler, and the actor's loop.
use agent_procs.Prelude.{
  ℕ, ◌+◌, ◌%◌, ◌^◌, Bool, true, false, ◌&&◌, List, [], ◌∷◌, ◌++◌, Option, none, some, Text, bytes,
  decimal, ◌==◌, if◌then◌else◌,
}
use agent_procs.Prelude.Maps.{Map}
use agent_procs.Protocol.{Response, RestartPolicy, WatchConfig, process_url}
use agent_procs.Manager.Os.{Os}
use agent_procs.Manager.Types.{
  Life, running, exited, stopping, ExitWhy, RespawnReason, AfterStop, park, Waiter, ManagedProcess,
}
use agent_procs.Manager.Table.{find, has_process, is_process_exited, refresh_exit_states}
use agent_procs.Manager.Spawn.{spawn_process}
use agent_procs.Manager.Restarts.{classify_restart_candidates, mark_failed}
use agent_procs.Actor.State.{
  Actor, PmCommand, Reply, Effect, scheduled, emit_all, send, update_pm, not_found_error, stopped,
  stop_all_in_progress, publish_proxy_state, refresh, build_status, setup_watcher, unless_busy,
}
use agent_procs.Actor.Teardown.{note, start_teardown, finish_teardown, handle_stop_all}

abbrev exhausted_message : ManagedProcess → Option Text
exhausted_message p = elim p.restart_policy [
  | none ↦ none
  | some rp ↦ elim rp.max_restarts [
    | none ↦ none
    | some m ↦ some (bytes "[agent-procs] Max restarts (" ++ decimal m ++ bytes ") exhausted")
  ]
]

abbrev exhausted_note : Option ManagedProcess → List Effect
exhausted_note none = []
exhausted_note (some p) = note (some p) (exhausted_message p)

unfoldable pub give_up_on : List Text → Actor → Actor
give_up_on [] a = a
give_up_on (name ∷ ns) a =
    let b = emit_all (exhausted_note (find a.pm name)) a in
    give_up_on ns (record b { pm = mark_failed b.pm name })

abbrev pub set_timer : Life → Life
set_timer (running inc) = running inc
set_timer (exited code why inc timer) = exited code why inc true
set_timer (stopping leader_exit after_stop waiters) = stopping leader_exit after_stop waiters

abbrev delay_of : Option RestartPolicy → ℕ
delay_of none = 1000
delay_of (some rp) = rp.restart_delay_ms

abbrev timer_effect : Text → ManagedProcess → Life → List Effect
timer_effect name p (running inc) = []
timer_effect name p (exited code why inc t) =
    scheduled name p.generation (delay_of p.restart_policy) ∷ []
timer_effect name p (stopping leader_exit after_stop waiters) = []

abbrev timer_found : Text → Option ManagedProcess → List Effect
timer_found name none = []
timer_found name (some p) = timer_effect name p p.life

unfoldable pub start_timers : List Text → Actor → Actor
start_timers [] a = a
start_timers (name ∷ ns) a = start_timers ns (
    emit_all (timer_found name (find a.pm name))
      (update_pm name (λ p. record p { life = set_timer p.life }) a))

abbrev pub publish_unless_empty : List Text → Actor → Actor
publish_unless_empty [] a = a
publish_unless_empty (n ∷ ns) a = publish_proxy_state a

unfoldable pub schedule_restarts : Actor → Actor
schedule_restarts a =
    let (restartable, exhausted) = classify_restart_candidates a.pm in
    unless_busy a.stop_all a
      (start_timers restartable (publish_unless_empty exhausted (give_up_on exhausted a)))

-- The branch of `run` that the refresh interval takes.
unfoldable pub tick : Os → Actor → Actor
unfolding schedule_restarts
tick os a =
    let b = refresh os a in
    schedule_restarts (if (refresh_exit_states os a.pm).1 then publish_proxy_state b else b)

abbrev pub attach : Option RestartPolicy → Option WatchConfig → ManagedProcess → ManagedProcess
attach restart watch p = record p { restart_policy = restart; watch_config = watch }

abbrev watch_message : Option Text → Option Text
watch_message none = none
watch_message (some e) = some (bytes "[agent-procs] Watch setup failed: " ++ e)

-- The watcher of a new process, if one is asked for.
abbrev pub watch_new : Os → Text → Option WatchConfig → Actor → Actor
watch_new os name none a = a
watch_new os name (some wc) a =
    let (e, b) = setup_watcher os name a in emit_all (note (find b.pm name) (watch_message e)) b

abbrev proxied_url : Text → Option ℕ → Option ℕ → Option Text → Option Text
proxied_url name (some p) (some pp) url = some (process_url name p (some pp))
proxied_url name _ _ url = url

-- What follows `spawn_process`: the policies, the watcher, and the URL of the answer.
abbrev pub after_spawn :
    Os → Option RestartPolicy → Option WatchConfig → Response → Actor → Response × Actor
after_spawn os restart watch (Response.run_ok name id pid port url) a =
    let b = watch_new os name watch (update_pm name (attach restart watch) a) in
    (Response.run_ok name id pid port (proxied_url name port b.proxy_port url), b)
after_spawn os restart watch r a = (r, a)

abbrev pub unwatch : ManagedProcess → ManagedProcess
unwatch p = record p { watch_handle = false }

abbrev pub join_stop : ℕ → Life → Life
join_stop reply (stopping leader_exit after_stop waiters) =
    stopping leader_exit park (waiters ++ Waiter.stop reply ∷ [])
join_stop reply life = life

abbrev pub join_restart : ℕ → Life → Life
join_restart reply (stopping leader_exit after_stop waiters) =
    stopping leader_exit (AfterStop.respawn RespawnReason.manual)
      (waiters ++ Waiter.restart reply ∷ [])
join_restart reply life = life

abbrev pub stop_found : Text → ℕ → ManagedProcess → Life → Actor → Option Actor
stop_found target reply p (stopping leader_exit after_stop waiters) a =
    some (update_pm target (λ q. record q { life = join_stop reply q.life }) a)
stop_found target reply p (exited code why none timer) a =
    some (send reply (Reply.response (stopped p.name)) (update_pm target unwatch a))
stop_found target reply p (exited code why (some inc) timer) a =
    start_teardown p.name park (Waiter.stop reply ∷ []) a
stop_found target reply p (running inc) a = start_teardown p.name park (Waiter.stop reply ∷ []) a

abbrev pub restart_found : Text → ℕ → ManagedProcess → Life → Actor → Option Actor
restart_found target reply p (stopping leader_exit after_stop waiters) a =
    some (update_pm target (λ q. record q { life = join_restart reply q.life }) a)
restart_found target reply p _ a =
    start_teardown p.name (AfterStop.respawn RespawnReason.manual) (Waiter.restart reply ∷ []) a

abbrev pub is_due : Life → Bool
is_due (exited code ExitWhy.natural inc true) = true
is_due _ = false

abbrev pub may_watch_restart : Life → Bool
may_watch_restart (stopping leader_exit after_stop waiters) = false
may_watch_restart (exited code ExitWhy.manual inc timer) = false
may_watch_restart _ = true

abbrev pub count_up : ManagedProcess → ManagedProcess
count_up p = record p { restart_count = (p.restart_count + 1) % 2 ^ 32 }

abbrev pub count_zero : ManagedProcess → ManagedProcess
count_zero p = record p { restart_count = 0 }

abbrev pub restart_due :
    Text → Bool → RespawnReason → (ManagedProcess → ManagedProcess) → Actor → Option Actor
restart_due name false reason f a = some a
restart_due name true reason f a =
    start_teardown name (AfterStop.respawn reason) [] (update_pm name f a)

-- `Spawn`, when no stop-all runs.
unfoldable pub spawn_new :
    Os
    → Text
    → Option Text
    → Option Text
    → Option (Map Text)
    → Option ℕ
    → Option RestartPolicy
    → Option WatchConfig
    → ℕ
    → Actor
    → Actor
spawn_new os command name cwd env port restart watch reply a =
    let (r, m) = spawn_process os a.pm command name cwd env port in
    let (answer, b) = after_spawn os restart watch r (record a { pm = m }) in
    send reply (Reply.response answer) (publish_proxy_state b)

unfoldable pub handle_spawn :
    Os
    → Text
    → Option Text
    → Option Text
    → Option (Map Text)
    → Option ℕ
    → Option RestartPolicy
    → Option WatchConfig
    → ℕ
    → Actor
    → Actor
handle_spawn os command name cwd env port restart watch reply a =
    unless_busy a.stop_all (send reply (Reply.response stop_all_in_progress) a)
      (spawn_new os command name cwd env port restart watch reply a)

abbrev pub stop_target : Text → ℕ → Option ManagedProcess → Actor → Option Actor
stop_target target reply none a = some (send reply (Reply.response (not_found_error target)) a)
stop_target target reply (some p) a = stop_found target reply p p.life a

unfoldable pub handle_stop : Os → Text → ℕ → Actor → Option Actor
handle_stop os target reply a =
    let b = refresh os a in stop_target target reply (find b.pm target) b

abbrev pub restart_target : Text → ℕ → Option ManagedProcess → Actor → Option Actor
restart_target target reply none a = some (send reply (Reply.response (not_found_error target)) a)
restart_target target reply (some p) a = restart_found target reply p p.life a

unfoldable pub handle_restart : Os → Text → ℕ → Actor → Option Actor
handle_restart os target reply a =
    let b = refresh os a in
    unless_busy a.stop_all (some (send reply (Reply.response stop_all_in_progress) a))
      (restart_target target reply (find b.pm target) b)

unfoldable pub handle_enable_proxy : ℕ → ℕ → Actor → Actor
handle_enable_proxy proxy_port reply a = elim a.proxy_port [
  | some existing ↦ send reply (Reply.enabled (some existing)) a
  | none ↦
      let allocator = record a.pm.port_allocator { proxy_enabled = true } in
      send reply (Reply.enabled none) (
        publish_proxy_state (record a {
          proxy_port = some proxy_port;
          pm = record a.pm { port_allocator = allocator };
        }))
]

abbrev pub auto_restart_found : Text → ℕ → Option ManagedProcess → Actor → Option Actor
auto_restart_found name generation none a = some a
auto_restart_found name generation (some p) a =
    restart_due name (p.generation == generation && is_due p.life) RespawnReason.auto count_up a

unfoldable pub handle_auto_restart : Text → ℕ → Actor → Option Actor
handle_auto_restart name generation a =
    unless_busy a.stop_all (some a) (auto_restart_found name generation (find a.pm name) a)

abbrev pub watch_restart_found : Text → ℕ → Option ManagedProcess → Actor → Option Actor
watch_restart_found name generation none a = some a
watch_restart_found name generation (some p) a =
    restart_due name (p.generation == generation && may_watch_restart p.life) RespawnReason.watch
      count_zero a

unfoldable pub handle_watch_restart : Text → ℕ → Actor → Option Actor
handle_watch_restart name generation a =
    unless_busy a.stop_all (some a) (watch_restart_found name generation (find a.pm name) a)

abbrev pub answer_status : Os → ℕ → Actor → Actor
answer_status os reply a = let (r, b) = build_status os a in send reply (Reply.response r) b

abbrev pub answer_exited : Os → Text → ℕ → Actor → Actor
answer_exited os target reply a =
    let (e, m) = is_process_exited os a.pm target in
    send reply (Reply.exit e) (publish_proxy_state (record a { pm = m }))

unfoldable pub handle_command : Os → PmCommand → Actor → Option Actor
handle_command os (PmCommand.spawn command name cwd env port restart watch reply) a =
    some (handle_spawn os command name cwd env port restart watch reply a)
handle_command os (PmCommand.stop target reply) a = handle_stop os target reply a
handle_command os (PmCommand.stop_all reply) a = handle_stop_all os reply a
handle_command os (PmCommand.restart target reply) a = handle_restart os target reply a
handle_command os (PmCommand.status reply) a = some (answer_status os reply a)
handle_command os (PmCommand.status_snapshot reply) a = some (answer_status os reply a)
handle_command os (PmCommand.has_process target reply) a =
    some (send reply (Reply.flag (has_process a.pm target)) a)
handle_command os (PmCommand.session_name reply) a =
    some (send reply (Reply.session_reply a.pm.session) a)
handle_command os (PmCommand.is_process_exited target reply) a =
    some (answer_exited os target reply a)
handle_command os (PmCommand.enable_proxy proxy_port reply) a =
    some (handle_enable_proxy proxy_port reply a)
handle_command os (PmCommand.subscribe reply) a = some (send reply Reply.receiver a)
handle_command os (PmCommand.auto_restart name generation) a = handle_auto_restart name generation a
handle_command os (PmCommand.watch_restart name generation) a =
    handle_watch_restart name generation a
handle_command os (PmCommand.stop_finished name generation code) a =
    finish_teardown os name generation code a
