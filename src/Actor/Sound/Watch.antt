-- ===== src/Actor/Sound/Watch.antt =====
-- Watchers and effects leave the invariant alone.
use agent_procs.Prelude.{refl, Option, none, some, Text}
use agent_procs.Prelude.Int.{ℤ}
use agent_procs.Protocol.{Response, WatchConfig}
use agent_procs.Manager.Os.{Os}
use agent_procs.Manager.Types.{ManagedProcess, RespawnReason}
use agent_procs.Actor.State.{
  Actor, setup_watcher, watch_found, watch_config_of, watch_started, watch_on, watch_error,
}
use agent_procs.Actor.Teardown.{after_respawn}
use agent_procs.Actor.Sound.{Inv}
use agent_procs.Actor.Sound.Stops.{Keeps}
use agent_procs.Actor.Sound.Handlers.{Inv-update}

watch_started-Keeps :
    (name : Text) (p : ManagedProcess) (e : Option Text) (a : Actor)
    → Inv a
    → Keeps a (watch_started name p e a).1
watch_started-Keeps name p none a g = (
  Inv-update name watch_on a (λ p. refl)
      (λ k q s. record {
        named = s.named;
        issued = s.issued;
        tracked = s.tracked;
        covered = s.covered;
        in_budget = s.in_budget;
      })
      g,
  refl,
)
watch_started-Keeps name p (some e) a g = (
  Inv-update name watch_error a (λ p. refl)
      (λ k q s. record {
        named = s.named;
        issued = s.issued;
        tracked = s.tracked;
        covered = s.covered;
        in_budget = s.in_budget;
      })
      g,
  refl,
)

watch_config_of-Keeps :
    (os : Os) (name : Text) (p : ManagedProcess) (wc : Option WatchConfig) (a : Actor)
    → Inv a
    → Keeps a (watch_config_of os name p wc a).1
watch_config_of-Keeps os name p none a g = (g, refl)
watch_config_of-Keeps os name p (some wc) a g = watch_started-Keeps name p _ a g

watch_found-Keeps :
    (os : Os) (name : Text) (o : Option ManagedProcess) (a : Actor)
    → Inv a
    → Keeps a (watch_found os name o a).1
watch_found-Keeps os name none a g = (g, refl)
watch_found-Keeps os name (some p) a g = watch_config_of-Keeps os name p p.watch_config a g

pub setup_watcher-Keeps :
    (os : Os) (name : Text) (a : Actor) → Inv a → Keeps a (setup_watcher os name a).1
unfolding setup_watcher
setup_watcher-Keeps os name a g = watch_found-Keeps os name _ a g

pub after_respawn-Keeps :
    (os : Os) (name : Text) (reason : RespawnReason) (code : Option ℤ) (r : Response) (a : Actor)
    → Inv a
    → Keeps a (after_respawn os name reason code r a)
after_respawn-Keeps os name reason code (Response.run_ok n id pid port url) a g =
    setup_watcher-Keeps os name _ g
after_respawn-Keeps os name RespawnReason.manual code (Response.error c message) a g = (g, refl)
after_respawn-Keeps os name RespawnReason.auto code (Response.error c message) a g = (g, refl)
after_respawn-Keeps os name RespawnReason.watch code (Response.error c message) a g = (g, refl)
after_respawn-Keeps os name reason code _ a g = (g, refl)
