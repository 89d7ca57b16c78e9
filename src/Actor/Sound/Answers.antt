-- ===== src/Actor/Sound/Answers.antt =====
-- The commands that only read or spawn, and the restart timers: the invariant is kept.
use agent_procs.Prelude.{
  ℕ, ◌+◌, ◌^◌, ◌<◌, ◌≡◌, refl, sym, subst, Bool, true, false, Option, none, some, Text, arith,
  Option-cases, inl, inr, if◌then◌else◌,
}
use agent_procs.Prelude.Maps.{Map, lookup}
use agent_procs.Protocol.{RestartPolicy, WatchConfig, Response}
use agent_procs.Manager.Os.{Os}
use agent_procs.Manager.Spawn.{spawn_process}
use agent_procs.Manager.Types.{ManagedProcess, ProcessManager}
use agent_procs.Manager.Table.{update, is_process_exited, refresh_exit_states}
use agent_procs.Manager.Table.Laws.{Distinct-adjust, Entries-adjust, update_in-lookup}
use agent_procs.Actor.State.{
  Actor, StopAllBatch, publish_proxy_state, refresh, unless_busy, build_status, update_pm,
}
use agent_procs.Actor.Commands.{
  attach, after_spawn, watch_new, is_due, spawn_new, handle_spawn, handle_enable_proxy,
}
use agent_procs.Actor.Sound.{Sound, Good, Inv, InBudget, UnderMax}
use agent_procs.Actor.Sound.Refresh.{Inv-refresh}
use agent_procs.Actor.Sound.Handlers.{Inv-publish}
use agent_procs.Actor.Sound.Spawns.{GoodManager-spawn, Spawned, Spawned-spawn}
use agent_procs.Actor.Sound.Watch.{setup_watcher-Keeps}

pub publish_if-Inv :
    (changed : Bool) (a : Actor) → Inv a → Inv (if changed then publish_proxy_state a else a)
publish_if-Inv true a g = Inv-publish a g
publish_if-Inv false a g = g

pub Inv-status : (os : Os) (a : Actor) → Inv a → Inv (build_status os a).1
unfolding build_status
Inv-status os a g =
    publish_if-Inv (refresh_exit_states os a.pm).1 (refresh os a) (Inv-refresh os a g)

pub Inv-exited :
    (os : Os) (target : Text) (a : Actor)
    → Inv a
    → Inv (record a { pm = (is_process_exited os a.pm target).1 })
unfolding is_process_exited refresh
Inv-exited os target a g = Inv-refresh os a g

pub Inv-enable_proxy : (port reply : ℕ) (a : Actor) → Inv a → Inv (handle_enable_proxy port reply a)
unfolding handle_enable_proxy
Inv-enable_proxy port reply a g = elim (Option-cases a.proxy_port) [
  | inl e ↦ rw (e, handle_enable_proxy) (Inv-publish _ g)
  | inr (p, e) ↦ rw (e, handle_enable_proxy) g
]

watch_new-Inv :
    (os : Os) (name : Text) (wc : Option WatchConfig) (a : Actor)
    → Inv a
    → Inv (watch_new os name wc a)
watch_new-Inv os name none a g = g
watch_new-Inv os name (some wc) a g = (setup_watcher-Keeps os name a g).0

Inv-attach :
    (name : Text) (restart : Option RestartPolicy) (watch : Option WatchConfig) (a : Actor)
    (p : ManagedProcess)
    → lookup name a.pm.processes ≡ some p
    → p.restart_count ≡ 0
    → is_due p.life ≡ false
    → Inv a
    → Inv (update_pm name (attach restart watch) a)
unfolding update
Inv-attach name restart watch a p e zero idle g =
    rw (update_in-lookup name (attach restart watch) a.pm.processes p e) (record {
      distinct =
          Distinct-adjust name (attach restart watch) a.pm.processes p g.distinct e (inl refl);
      sound =
          Entries-adjust sound sound name (attach restart watch) a.pm.processes p (λ j q d s. s)
            g.distinct g.sound e
            (λ s. record {
              named = s.named;
              issued = s.issued;
              tracked = s.tracked;
              covered = s.covered;
              in_budget = fresh restart;
            });
      bounded = g.bounded;
    })
  where
    sound : Text → ManagedProcess → Type 0
    sound = Sound a.pm.next_generation a.tasks a.stop_all

    fresh : (rp : Option RestartPolicy) → InBudget rp p.restart_count p.life
    fresh none = tt
    fresh (some rp) = under rp.max_restarts
      where
        under : (max : Option ℕ) → UnderMax max p.restart_count p.life
        under none = tt
        under (some max) = (omega (arith, zero), λ h. absurd (cc))

after_spawn-Inv :
    (os : Os) (restart : Option RestartPolicy) (watch : Option WatchConfig) (r : Response)
    (a : Actor)
    → Spawned (r, a.pm)
    → Inv a
    → Inv (after_spawn os restart watch r a).1
after_spawn-Inv os restart watch (Response.run_ok name id pid port url) a (p, e, zero, idle) g =
    watch_new-Inv os name watch _ (Inv-attach name restart watch a p e zero idle g)
after_spawn-Inv os restart watch _ a s g = g

pub Inv-unless :
    (b : Option StopAllBatch) (refused go : Actor)
    → Inv refused
    → (b ≡ none → Inv go)
    → Inv (unless_busy b refused go)
Inv-unless none refused go r f = f refl
Inv-unless (some b) refused go r f = r

pub Inv-spawn :
    (os : Os) (command : Text) (name cwd : Option Text) (env : Option (Map Text)) (port : Option ℕ)
    (restart : Option RestartPolicy) (watch : Option WatchConfig) (reply : ℕ) (a : Actor)
    → a.pm.next_generation + 1 < 2 ^ 64
    → Inv a
    → Inv (handle_spawn os command name cwd env port restart watch reply a)
unfolding handle_spawn spawn_new
Inv-spawn os command name cwd env port restart watch reply a room g =
    Inv-unless a.stop_all _ _ g spawned
  where
    m : ProcessManager
    m = (spawn_process os a.pm command name cwd env port).1

    spawned : a.stop_all ≡ none → Inv (spawn_new os command name cwd env port restart watch reply a)
    spawned quiet = Inv-publish _ (
        after_spawn-Inv os restart watch _ (record a { pm = m })
          (Spawned-spawn os a.pm command name cwd env port)
          (subst (λ s. Good m.next_generation a.tasks s m.processes) (sym quiet)
            (GoodManager-spawn a.tasks os a.pm command name cwd env port room
              (subst (λ s. Good a.pm.next_generation a.tasks s a.pm.processes) quiet g))))
