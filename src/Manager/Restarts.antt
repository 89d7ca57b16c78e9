-- ===== src/Manager/Restarts.antt =====
-- Which exited processes are to be restarted, and which have used up their restarts.
use agent_procs.Prelude.{
  ℕ, Bool, false, List, [], ◌∷◌, Option, none, some, Text, leb, if◌then◌else◌,
}
use agent_procs.Prelude.Int.{ℤ}
use agent_procs.Prelude.Maps.{Map}
use agent_procs.Protocol.{RestartPolicy, should_restart}
use agent_procs.Manager.Types.{
  Life, running, exited, stopping, ExitWhy, ManagedProcess, ProcessManager,
}
use agent_procs.Manager.Table.{update}

pub data Verdict : Type 0 where
  leave restartable exhausted : Verdict

-- The exit code of a record that ended by itself and has no timer yet.
abbrev pub unscheduled : Life → Option (Option ℤ)
unscheduled (exited code ExitWhy.natural inc false) = some code
unscheduled _ = none

abbrev pub spent : Option ℕ → ℕ → Bool
spent none count = false
spent (some max) count = leb max count

abbrev pub weigh : RestartPolicy → Option ℤ → ℕ → Verdict
weigh policy code count =
    if should_restart policy.mode code
    then (if spent policy.max_restarts count then exhausted else restartable)
    else leave

abbrev pub verdict_on : Option (Option ℤ) → Option RestartPolicy → ℕ → Verdict
verdict_on none policy count = leave
verdict_on (some code) none count = leave
verdict_on (some code) (some policy) count = weigh policy code count

unfoldable pub verdict : ManagedProcess → Verdict
verdict p = verdict_on (unscheduled p.life) p.restart_policy p.restart_count

abbrev pub sort_out : Verdict → Text → List Text × List Text → List Text × List Text
sort_out leave name r = r
sort_out restartable name r = (name ∷ r.0, r.1)
sort_out exhausted name r = (r.0, name ∷ r.1)

unfoldable pub classify : Map ManagedProcess → List Text × List Text
unfolding verdict
classify [] = ([], [])
classify ((k, p) ∷ m) = sort_out (verdict p) p.name (classify m)

-- The restartable names, and the exhausted ones.
unfoldable pub classify_restart_candidates : ProcessManager → List Text × List Text
unfolding classify
classify_restart_candidates m = classify m.processes

abbrev pub exhaust : Life → Life
exhaust (exited code why inc timer) = exited code ExitWhy.exhausted inc timer
exhaust (running inc) = running inc
exhaust (stopping leader_exit after_stop waiters) = stopping leader_exit after_stop waiters

unfoldable pub mark_failed : ProcessManager → Text → ProcessManager
mark_failed m target = update m target (λ p. record p { life = exhaust p.life })
