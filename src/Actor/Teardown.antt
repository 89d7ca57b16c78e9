-- ===== src/Actor/Teardown.antt =====
-- Stopping processes: `start_teardown`, `finish_teardown`, and `stop-all`. `none` is a panic.
use agent_procs.Prelude.{
  ℕ, ◌+◌, Bool, true, false, not, List, [], ◌∷◌, ◌++◌, Option, none, some, Text, bytes, decimal,
  text_eq, ◌==◌, if◌then◌else◌, select,
}
use agent_procs.Prelude.Int.{ℤ, pos, negsuc}
use agent_procs.Protocol.{Response, RestartPolicy}
use agent_procs.Manager.Os.{Os}
use agent_procs.Manager.Types.{
  Life, running, exited, stopping, ExitWhy, RespawnReason, AfterStop, park, Waiter, ManagedProcess,
  supervisor_tx,
}
use agent_procs.Manager.Table.{find, update, names, clear}
use agent_procs.Manager.Spawn
use agent_procs.Actor.State.{
  Actor, StopAllBatch, Reply, Effect, replied, noted, broadcast, rotated, emit, emit_all, update_pm,
  actor_error, stopped, publish_proxy_state, refresh, setup_watcher,
}

-- What `start_teardown` leaves of a life, unless it is stopping already.
abbrev pub begin_stop : Life → AfterStop → List Waiter → Option Life
begin_stop (running inc) after_stop waiters = some (stopping none after_stop waiters)
begin_stop (exited code why inc timer) after_stop waiters =
    some (stopping (some code) after_stop waiters)
begin_stop (stopping leader_exit other others) after_stop waiters = none

unfoldable pub start_teardown : Text → AfterStop → List Waiter → Actor → Option Actor
start_teardown name after_stop waiters a = elim (find a.pm name) [
  | none ↦ some a
  | some p ↦ elim (begin_stop p.life after_stop waiters) [
    | none ↦ none
    | some life ↦ some (record a {
      pm = update a.pm name (λ q. record q { life = life; watch_handle = false });
      tasks = (name, p.generation) ∷ a.tasks;
    })
  ]
]

abbrev pub is_manual : RespawnReason → Bool
is_manual RespawnReason.manual = true
is_manual RespawnReason.auto = false
is_manual RespawnReason.watch = false

abbrev int_text : ℤ → Text
int_text (pos n) = decimal n
int_text (negsuc n) = bytes "-" ++ decimal (n + 1)

abbrev exit_text : Option ℤ → Text
exit_text none = bytes "signal"
exit_text (some c) = int_text c

abbrev attempt_text : Option RestartPolicy → Text
attempt_text none = []
attempt_text (some rp) = elim rp.max_restarts [ none ↦ [] | some m ↦ bytes "/" ++ decimal m ]

-- The line that a restart leaves in the log.
abbrev pub marker : RespawnReason → Option ℤ → Option ManagedProcess → Option Text
marker RespawnReason.manual code p = none
marker RespawnReason.watch code p = some (bytes "[agent-procs] File changed, restarted")
marker RespawnReason.auto code none = none
marker RespawnReason.auto code (some p) = some (
    bytes "[agent-procs] Restarted (exit "
    ++ exit_text code
    ++ bytes ", attempt "
    ++ decimal p.restart_count
    ++ attempt_text p.restart_policy
    ++ bytes ")")

-- `try_send` to the supervisor channel of `p`, if there is one.
abbrev pub note : Option ManagedProcess → Option Text → List Effect
note p none = []
note none (some message) = []
note (some p) (some message) = elim (supervisor_tx p) [
  | none ↦ []
  | some log ↦ noted log message ∷ []
]

abbrev failure_label : RespawnReason → Text
failure_label RespawnReason.auto = bytes "Restart"
failure_label _ = bytes "Watch restart"

-- What follows the manager's answer to a respawn.
abbrev pub after_respawn : Os → Text → RespawnReason → Option ℤ → Response → Actor → Actor
after_respawn os name reason code (Response.run_ok n id pid port url) a =
    let b = emit_all (note (find a.pm name) (marker reason code (find a.pm name))) a in
    (setup_watcher os name b).1
after_respawn os name reason code (Response.error c message) a =
    if is_manual reason
    then a
    else emit
        (broadcast name
          (bytes "[agent-procs] " ++ failure_label reason ++ bytes " failed: " ++ message))
        a
after_respawn os name reason code r a = a

abbrev pub reset_count : ManagedProcess → ManagedProcess
reset_count p = record p { restart_count = 0 }

-- `ProcessManagerActor::respawn`
unfoldable pub respawn : Os → Text → RespawnReason → Option ℤ → Actor → Response × Actor
respawn os name reason code a =
    let b = if is_manual reason then update_pm name reset_count a else emit (rotated name) a in
    let (r, m) = Spawn.respawn os b.pm name in
    (r, after_respawn os name reason code r (record b { pm = m }))

abbrev answer : Text → Response → Waiter → Effect
answer name r (Waiter.stop reply) = replied reply (Reply.response (stopped name))
answer name r (Waiter.restart reply) = replied reply (Reply.response r)

-- The replies to the waiters, newest first.
unfoldable pub answer_all : Text → Response → List Waiter → List Effect → List Effect
answer_all name r [] es = es
answer_all name r (w ∷ ws) es = answer_all name r ws (answer name r w ∷ es)

unfoldable pub reply_all : List ℕ → List Effect → List Effect
reply_all [] es = es
reply_all (r ∷ rs) es =
    reply_all rs (replied r (Reply.response (Response.ok (bytes "all processes stopped"))) ∷ es)

abbrev pub finish_batch : Option StopAllBatch → Actor → Actor
finish_batch none a = a
finish_batch (some batch) a = record a {
  pm = clear a.pm;
  stop_all = none;
  effects = reply_all batch.replies a.effects;
}

unfoldable pub finish_stop_all : Actor → Actor
unfolding reply_all clear
finish_stop_all a = finish_batch a.stop_all a

abbrev pub without : Text → List Text → List Text
without name = select (λ n. not (text_eq n name))

abbrev pub close_if_empty : List Text → Actor → Actor
close_if_empty [] a = finish_stop_all a
close_if_empty (n ∷ ns) a = a

abbrev pub leave_found : Text → Option StopAllBatch → Actor → Actor
leave_found name none a = a
leave_found name (some batch) a =
    let rest = without name batch.remaining in
    close_if_empty rest
      (record a { stop_all = some (record { remaining = rest; replies = batch.replies }) })

-- The stop-all's bookkeeping after one teardown.
unfoldable pub leave_batch : Text → Actor → Actor
leave_batch name a = leave_found name a.stop_all a

abbrev pub parked : Option ℤ → ManagedProcess → ManagedProcess
parked code p = record p { life = exited code ExitWhy.manual none false }

abbrev pub superseded : Response
superseded = actor_error (bytes "restart superseded by stop")

abbrev pub continue_after : Os → Text → AfterStop → Option ℤ → Actor → Response × Actor
continue_after os name park code a = (superseded, a)
continue_after os name (AfterStop.respawn reason) code a = respawn os name reason code a

-- `finish_teardown` for the record `p` of the right generation.
unfoldable pub settle : Os → Text → Option ℤ → Life → Actor → Option Actor
settle os name code (running inc) a = none
settle os name code (exited c why inc timer) a = none
settle os name code (stopping leader_exit after_stop waiters) a =
    let (r, b) = continue_after os name after_stop code (update_pm name (parked code) a) in
    let c = record b { effects = answer_all name r waiters b.effects } in
    some (publish_proxy_state (leave_batch name c))

abbrev pub finish_found : Os → Text → ℕ → Option ℤ → Option ManagedProcess → Actor → Option Actor
finish_found os name generation code none a = some a
finish_found os name generation code (some p) a =
    if p.generation == generation then settle os name code p.life a else some a

unfoldable pub finish_teardown : Os → Text → ℕ → Option ℤ → Actor → Option Actor
finish_teardown os name generation code a = finish_found os name generation code (find a.pm name) a

abbrev pub park_life : Life → Life
park_life (running inc) = running inc
park_life (exited code why inc timer) = exited code why inc timer
park_life (stopping leader_exit after_stop waiters) = stopping leader_exit park waiters

-- One round of the loop of `handle_stop_all`: the names to wait for, and the actor.
abbrev pub stop_one : Text → Life → List Text × Actor → Option (List Text × Actor)
stop_one name (stopping leader_exit after_stop waiters) (remaining, a) =
    some (name ∷ remaining, update_pm name (λ p. record p { life = park_life p.life }) a)
stop_one name (exited code why none timer) (remaining, a) = some (remaining, a)
stop_one name (exited code why (some inc) timer) (remaining, a) =
    elim (start_teardown name park [] a) [ none ↦ none | some b ↦ some (name ∷ remaining, b) ]
stop_one name (running inc) (remaining, a) = elim (start_teardown name park [] a) [
  | none ↦ none
  | some b ↦ some (name ∷ remaining, b)
]

unfoldable pub stop_each : List Text → List Text × Actor → Option (List Text × Actor)
unfolding start_teardown
stop_each [] s = some s
stop_each (name ∷ ns) s = elim (find s.1.pm name) [
  | none ↦ stop_each ns s
  | some p ↦ elim (stop_one name p.life s) [ none ↦ none | some t ↦ stop_each ns t ]
]

-- The end of `stop-all`'s own work, once its loop is done.
abbrev pub wait_for : ℕ → Option (List Text × Actor) → Option Actor
wait_for reply none = none
wait_for reply (some (remaining, c)) =
    let batch : StopAllBatch = record { remaining = remaining; replies = reply ∷ [] } in
    some (publish_proxy_state (close_if_empty remaining (record c { stop_all = some batch })))

abbrev pub stop_all_found : Os → ℕ → Option StopAllBatch → Actor → Option Actor
stop_all_found os reply (some batch) a = some (record a {
  stop_all = some (record { remaining = batch.remaining; replies = batch.replies ++ reply ∷ [] });
})
stop_all_found os reply none a =
    let b = refresh os a in wait_for reply (stop_each (names b.pm) ([], b))

unfoldable pub handle_stop_all : Os → ℕ → Actor → Option Actor
handle_stop_all os reply a = stop_all_found os reply a.stop_all a
