-- ===== src/Actor/Sound/Timers.antt =====
-- The restart scheduler: it starts timers only for records with restarts left.
use agent_procs.Prelude.{
  ℕ, ◌≡◌, refl, sym, ◌∙◌, inl, inr, false, List, [], ◌∷◌, Option, none, some, Text, text_eq_refl,
  arith, Bool-cases, All, All-map, leb, if◌then◌else◌,
}
use agent_procs.Prelude.Maps.{Map, lookup}
use agent_procs.Prelude.Int.{ℤ}
use agent_procs.Protocol.{RestartPolicy, should_restart}
use agent_procs.Manager.Os.{Os}
use agent_procs.Manager.Types.{ManagedProcess, Life, running, exited, stopping}
use agent_procs.Manager.Table.{update, update_in, refresh_exit_states}
use agent_procs.Manager.Table.Keys.{lookup-update_in}
use agent_procs.Manager.Table.Laws.{
  lookup-none-ne, Entries-adjust, Distinct-adjust, update_in-lookup, Named, Distinct,
}
use agent_procs.Manager.Restarts.{
  Verdict, sort_out, restartable, exhausted, leave, verdict, verdict_on, weigh, classify,
  classify_restart_candidates, exhaust, mark_failed, spent,
}
use agent_procs.Actor.State.{Actor, StopAllBatch, publish_proxy_state, refresh, update_pm}
use agent_procs.Actor.Commands.{
  give_up_on, start_timers, schedule_restarts, set_timer, tick, is_due, publish_unless_empty,
}
use agent_procs.Actor.Sound.{Sound, Inv, due, InBudget, UnderMax, Covered}
use agent_procs.Actor.Sound.Writes.{Good-Named}
use agent_procs.Actor.Sound.Refresh.{Inv-refresh}
use agent_procs.Actor.Sound.Handlers.{Inv-update}
use agent_procs.Actor.Sound.Answers.{Inv-unless, publish_if-Inv}
use agent_procs.Actor.Sound.Stops.{InBudget-idle}

-- A restart is left in the record's budget.
abbrev Ready : ManagedProcess → Type 0
Ready p = (life : Life) → InBudget p.restart_policy p.restart_count life

abbrev ReadyAt : Map ManagedProcess → Text → Type 0
ReadyAt m k = (p : ManagedProcess) × (lookup k m ≡ some p) × Ready p

Ready-weigh :
    (policy : RestartPolicy) (code : Option ℤ) (count : ℕ)
    → weigh policy code count ≡ restartable
    → (life : Life) → InBudget (some policy) count life
Ready-weigh policy code count e life = elim (Bool-cases (should_restart policy.mode code)) [
  | inr h ↦ absurd (ground (arith, e, h))
  | inl h ↦ under policy.max_restarts (rw h at e)
]
  where
    under :
        (max : Option ℕ)
        → (if spent max count then exhausted else restartable) ≡ restartable
        → UnderMax max count life
    under none u = tt
    under (some max) u = elim (Bool-cases (leb max count)) [
      | inl h ↦ absurd (ground (arith, u, h))
      | inr h ↦ (ground (arith, h), λ _. ground (arith, h))
    ]

Ready-verdict_on :
    (code : Option (Option ℤ)) (rp : Option RestartPolicy) (count : ℕ)
    → verdict_on code rp count ≡ restartable
    → (life : Life) → InBudget rp count life
Ready-verdict_on none rp count e life = absurd (cc)
Ready-verdict_on (some code) none count e life = tt
Ready-verdict_on (some code) (some policy) count e life = Ready-weigh policy code count e life

Ready-verdict : (p : ManagedProcess) → verdict p ≡ restartable → Ready p
unfolding verdict
Ready-verdict p e = Ready-verdict_on _ p.restart_policy p.restart_count e

ReadyAt-behind :
    (k : Text) (q : ManagedProcess) (m : Map ManagedProcess) (n : Text)
    → lookup k m ≡ none
    → ReadyAt m n
    → ReadyAt ((k, q) ∷ m) n
unfolding lookup
ReadyAt-behind k q m n absent (p, e, ready) = (p, rw (lookup-none-ne n k q p m absent e) e, ready)

sort_out-ReadyAt :
    (k : Text) (p : ManagedProcess) (m : Map ManagedProcess) (r : List Text × List Text)
    (v : Verdict)
    → p.name ≡ k
    → verdict p ≡ v
    → All (ReadyAt ((k, p) ∷ m)) r.0
    → All (ReadyAt ((k, p) ∷ m)) (sort_out v p.name r).0
unfolding lookup
sort_out-ReadyAt k p m r leave n e behind = behind
sort_out-ReadyAt k p m r exhausted n e behind = behind
sort_out-ReadyAt k p m r restartable n e behind =
    ((p, rw (n, text_eq_refl k) refl, Ready-verdict p e), behind)

classify-ReadyAt : (m : Map ManagedProcess) → Named m → Distinct m → All (ReadyAt m) (classify m).0
unfolding classify
classify-ReadyAt [] n d = tt
classify-ReadyAt ((k, p) ∷ m) n d = sort_out-ReadyAt k p m (classify m) (verdict p) n.0 refl (
    All-map (ReadyAt m) (ReadyAt ((k, p) ∷ m)) (classify m).0 (λ j r. ReadyAt-behind k p m j d.0 r)
      (classify-ReadyAt m n.1 d.2))

-- A change of the life alone leaves the records ready.
ReadyAt-life :
    (t : Text) (f : Life → Life) (m : Map ManagedProcess) (n : Text)
    → ReadyAt m n
    → ReadyAt (update_in t (λ p. record p { life = f p.life }) m) n
ReadyAt-life t f m n (p, e, ready) =
    elim (lookup-update_in t n (λ q. record q { life = f q.life }) m p e) [
      | inl same ↦ (p, same, ready)
      | inr changed ↦ (record p { life = f p.life }, changed, ready)
    ]

due-exhaust : (l : Life) (k : Text) → due (exhaust l) k ≡ due l k
due-exhaust (running inc) k = refl
due-exhaust (exited code why inc timer) k = refl
due-exhaust (stopping leader_exit after_stop ws) k = refl

Covered-exhaust :
    (b : Option StopAllBatch) (k : Text) (l : Life) → Covered b k l → Covered b k (exhaust l)
Covered-exhaust none k l c = tt
Covered-exhaust (some b) k (running inc) c = c
Covered-exhaust (some b) k (exited code why none timer) c = c
Covered-exhaust (some b) k (exited code why (some inc) timer) c = c
Covered-exhaust (some b) k (stopping leader_exit after_stop ws) c = c

is_due-exhaust : (l : Life) → is_due (exhaust l) ≡ false
is_due-exhaust (running inc) = refl
is_due-exhaust (exited code why inc timer) = refl
is_due-exhaust (stopping leader_exit after_stop ws) = refl

due-set_timer : (l : Life) (k : Text) → due (set_timer l) k ≡ due l k
due-set_timer (running inc) k = refl
due-set_timer (exited code why inc timer) k = refl
due-set_timer (stopping leader_exit after_stop ws) k = refl

Covered-set_timer :
    (b : Option StopAllBatch) (k : Text) (l : Life) → Covered b k l → Covered b k (set_timer l)
Covered-set_timer none k l c = tt
Covered-set_timer (some b) k (running inc) c = c
Covered-set_timer (some b) k (exited code why none timer) c = c
Covered-set_timer (some b) k (exited code why (some inc) timer) c = c
Covered-set_timer (some b) k (stopping leader_exit after_stop ws) c = c

Inv-mark_failed : (n : Text) (a : Actor) → Inv a → Inv (record a { pm = mark_failed a.pm n })
unfolding mark_failed
Inv-mark_failed n a g =
    Inv-update n (λ p. record p { life = exhaust p.life }) a (λ p. refl)
      (λ k q s. record {
        named = s.named;
        issued = s.issued;
        tracked = s.tracked ∙ sym (due-exhaust q.life k);
        covered = Covered-exhaust a.stop_all k q.life s.covered;
        in_budget =
            InBudget-idle q.restart_policy q.restart_count q.life _ s.in_budget
              (is_due-exhaust q.life);
      })
      g

abbrev ReadyActor : List Text → Actor → Type 0
ReadyActor ns a = Inv a × All (ReadyAt a.pm.processes) ns

Ready-give_up_on :
    (gone ns : List Text) (a : Actor) → ReadyActor ns a → ReadyActor ns (give_up_on gone a)
unfolding give_up_on mark_failed update
Ready-give_up_on [] ns a r = r
Ready-give_up_on (n ∷ gone) ns a r = Ready-give_up_on gone ns _ (
  Inv-mark_failed n a r.0,
  All-map (ReadyAt a.pm.processes) _ ns (λ k h. ReadyAt-life n exhaust a.pm.processes k h) r.1,
)

Inv-set_timer :
    (n : Text) (a : Actor)
    → ReadyAt a.pm.processes n
    → Inv a
    → Inv (update_pm n (λ p. record p { life = set_timer p.life }) a)
unfolding update
Inv-set_timer n a (p, e, ready) g =
    let f : ManagedProcess → ManagedProcess = λ q. record q { life = set_timer q.life } in
    rw (update_in-lookup n f a.pm.processes p e) (record {
      distinct = Distinct-adjust n f a.pm.processes p g.distinct e (inl refl);
      sound =
          Entries-adjust (Sound a.pm.next_generation a.tasks a.stop_all)
            (Sound a.pm.next_generation a.tasks a.stop_all) n f a.pm.processes p (λ j q d s. s)
            g.distinct g.sound e
            (λ s. record {
              named = s.named;
              issued = s.issued;
              tracked = s.tracked ∙ sym (due-set_timer p.life n);
              covered = Covered-set_timer a.stop_all n p.life s.covered;
              in_budget = ready (set_timer p.life);
            });
      bounded = g.bounded;
    })

Inv-start_timers : (ns : List Text) (a : Actor) → ReadyActor ns a → Inv (start_timers ns a)
unfolding start_timers update
Inv-start_timers [] a r = r.0
Inv-start_timers (n ∷ ns) a r = Inv-start_timers ns _ (
  Inv-set_timer n a r.1.0 r.0,
  All-map (ReadyAt a.pm.processes) _ ns (λ k h. ReadyAt-life n set_timer a.pm.processes k h) r.1.1,
)

publish-Ready :
    (gone ns : List Text) (a : Actor)
    → ReadyActor ns a
    → ReadyActor ns (publish_unless_empty gone a)
unfolding publish_proxy_state
publish-Ready [] ns a r = r
publish-Ready (n ∷ gone) ns a r = ground arith

Inv-schedule_restarts : (a : Actor) → Inv a → Inv (schedule_restarts a)
unfolding schedule_restarts classify_restart_candidates
Inv-schedule_restarts a g = Inv-unless a.stop_all _ _ g (λ quiet.
    Inv-start_timers (classify a.pm.processes).0 _ (
      publish-Ready (classify a.pm.processes).1 (classify a.pm.processes).0 _ (
        Ready-give_up_on (classify a.pm.processes).1 (classify a.pm.processes).0 a
          (g, classify-ReadyAt a.pm.processes (Good-Named _ _ _ _ g) g.distinct))))

pub Inv-tick : (os : Os) (a : Actor) → Inv a → Inv (tick os a)
unfolding tick
Inv-tick os a g =
    Inv-schedule_restarts _
      (publish_if-Inv (refresh_exit_states os a.pm).1 (refresh os a) (Inv-refresh os a g))
