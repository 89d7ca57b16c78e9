-- ===== src/Actor/Sound/Handlers.antt =====
-- `stop`, `restart` and the internal restarts: no panic, and the invariant is kept.
use agent_procs.Prelude.{
  ℕ, ◌+◌, ◌%◌, ◌^◌, ◌≡◌, refl, sym, ap, subst, ◌∙◌, Bool, true, false, List, [], ◌∷◌, Option, none,
  some, Text, arith, ◌&&◌, ◌==◌, ==_iff,
}
use agent_procs.Prelude.Maps.{lookup}
use agent_procs.Prelude.Int.{ℤ}
use agent_procs.Protocol.{RestartPolicy}
use agent_procs.Manager.Os.{Os}
use agent_procs.Manager.Types.{
  ManagedProcess, Life, running, exited, stopping, AfterStop, park, Waiter, RespawnReason,
  Incarnation, ExitWhy,
}
use agent_procs.Manager.Table.{find, update}
use agent_procs.Manager.Table.Laws.{Entries-lookup, find_in-Reaches}
use agent_procs.Actor.State.{Actor, StopAllBatch, publish_proxy_state, refresh, unless_busy}
use agent_procs.Actor.Commands.{
  is_due, handle_stop, handle_restart, handle_auto_restart, handle_watch_restart, stop_found,
  restart_found, restart_due, may_watch_restart, join_stop, join_restart, unwatch, count_up,
  count_zero, stop_target, restart_target, auto_restart_found, watch_restart_found,
}
use agent_procs.Actor.Sound.{Sound, Inv, due, InBudget, UnderMax, Covered, Returns}
use agent_procs.Actor.Sound.Writes.{Good-Named, Good-update}
use agent_procs.Actor.Sound.Refresh.{Inv-refresh}
use agent_procs.Actor.Sound.Stops.{Returns-start_found, Returns-start, Keeps, Idle}

pub Returns-map :
    (P Q : Actor → Type 0) (o : Option Actor)
    → ((b : Actor) → P b → Q b)
    → Returns P o
    → Returns Q o
Returns-map P Q none f r = r
Returns-map P Q (some b) f r = f b r

pub Inv-publish : (a : Actor) → Inv a → Inv (publish_proxy_state a)
unfolding publish_proxy_state
Inv-publish a g = ground arith

-- The soundness of the record that `find` reaches.
pub Sound-find :
    (t : Text) (a : Actor) (p : ManagedProcess)
    → Inv a
    → find a.pm t ≡ some p
    → Sound a.pm.next_generation a.tasks a.stop_all p.name p
unfolding find
Sound-find t a p g e =
    Entries-lookup (Sound a.pm.next_generation a.tasks a.stop_all) p.name a.pm.processes p g.sound
      (find_in-Reaches t a.pm.processes p (Good-Named _ _ _ _ g) g.distinct e).0

-- A write through `update_pm` that leaves the records sound.
pub Inv-update :
    (t : Text) (f : ManagedProcess → ManagedProcess) (a : Actor)
    → ((p : ManagedProcess) → (f p).generation ≡ p.generation)
    → ((k : Text) (p : ManagedProcess)
        → Sound a.pm.next_generation a.tasks a.stop_all k p
        → Sound a.pm.next_generation a.tasks a.stop_all k (f p))
    → Inv a
    → Inv (record a { pm = update a.pm t f })
unfolding update
Inv-update t f a kept keep g =
    Good-update a.pm.next_generation a.tasks a.stop_all t f a.pm.processes kept keep g

InBudget-same :
    (rp : Option RestartPolicy) (count : ℕ) (old life : Life)
    → is_due life ≡ is_due old
    → InBudget rp count old
    → InBudget rp count life
InBudget-same none count old life e b = tt
InBudget-same (some rp) count old life e b = under rp.max_restarts b
  where
    under : (max : Option ℕ) → UnderMax max count old → UnderMax max count life
    under none u = tt
    under (some max) u = (u.0, λ h. u.1 (sym e ∙ h))

-- A change of the life alone, within what the invariant reads of it.
pub Sound-life :
    (n : ℕ) (ts : List (Text × ℕ)) (b : Option StopAllBatch) (k : Text) (p : ManagedProcess)
    (life : Life)
    → due life k ≡ due p.life k
    → (Covered b k p.life → Covered b k life)
    → is_due life ≡ is_due p.life
    → Sound n ts b k p
    → Sound n ts b k (record p { life = life })
Sound-life n ts b k p life same_due cover same_flag s = record {
  named = s.named;
  issued = s.issued;
  tracked = s.tracked ∙ sym same_due;
  covered = cover s.covered;
  in_budget = InBudget-same p.restart_policy p.restart_count p.life life same_flag s.in_budget;
}

due-join_stop : (r : ℕ) (l : Life) (k : Text) → due (join_stop r l) k ≡ due l k
due-join_stop r (running inc) k = refl
due-join_stop r (exited code why inc timer) k = refl
due-join_stop r (stopping leader_exit after_stop ws) k = refl

is_due-join_stop : (r : ℕ) (l : Life) → is_due (join_stop r l) ≡ is_due l
is_due-join_stop r (running inc) = refl
is_due-join_stop r (exited code why inc timer) = refl
is_due-join_stop r (stopping leader_exit after_stop ws) = refl

Covered-join_stop :
    (b : Option StopAllBatch) (r : ℕ) (l : Life) (k : Text)
    → Covered b k l
    → Covered b k (join_stop r l)
Covered-join_stop none r l k c = tt
Covered-join_stop (some b) r (running inc) k c = c
Covered-join_stop (some b) r (exited code why none timer) k c = c
Covered-join_stop (some b) r (exited code why (some inc) timer) k c = c
Covered-join_stop (some b) r (stopping leader_exit after_stop ws) k c = (refl, c.1)

due-join_restart : (r : ℕ) (l : Life) (k : Text) → due (join_restart r l) k ≡ due l k
due-join_restart r (running inc) k = refl
due-join_restart r (exited code why inc timer) k = refl
due-join_restart r (stopping leader_exit after_stop ws) k = refl

is_due-join_restart : (r : ℕ) (l : Life) → is_due (join_restart r l) ≡ is_due l
is_due-join_restart r (running inc) = refl
is_due-join_restart r (exited code why inc timer) = refl
is_due-join_restart r (stopping leader_exit after_stop ws) = refl

-- A live record is never seen while a stop-all runs.
quiet_running :
    (b : Option StopAllBatch) (k : Text) (inc : Incarnation) → Covered b k (running inc) → b ≡ none
quiet_running none k inc c = refl
quiet_running (some b) k inc c = absurd c

quiet_exited :
    (b : Option StopAllBatch) (k : Text) (code : Option ℤ) (why : ExitWhy) (inc : Incarnation)
    (timer : Bool)
    → Covered b k (exited code why (some inc) timer)
    → b ≡ none
quiet_exited none k code why inc timer c = refl
quiet_exited (some b) k code why inc timer c = absurd c

Returns-stop_found :
    (t : Text) (reply : ℕ) (a : Actor) (p : ManagedProcess) (life : Life)
    → p.life ≡ life
    → find a.pm t ≡ some p
    → Inv a
    → Returns Inv (stop_found t reply p life a)
Returns-stop_found t reply a p (stopping leader_exit after_stop ws) l e g =
    Inv-update t _ a (λ p. refl)
      (λ k q s.
        Sound-life a.pm.next_generation a.tasks a.stop_all k q (join_stop reply q.life)
          (due-join_stop reply q.life k) (Covered-join_stop a.stop_all reply q.life k)
          (is_due-join_stop reply q.life) s)
      g
Returns-stop_found t reply a p (exited code why none timer) l e g =
    Inv-update t unwatch a (λ p. refl)
      (λ k q s. record {
        named = s.named;
        issued = s.issued;
        tracked = s.tracked;
        covered = s.covered;
        in_budget = s.in_budget;
      })
      g
Returns-stop_found t reply a p (exited code why (some inc) timer) l e g =
    Returns-map (Keeps a) Inv _ (λ b k. k.0)
      (Returns-start_found t park (Waiter.stop reply ∷ []) a p g
        (quiet_exited a.stop_all p.name code why inc timer
          (subst (Covered a.stop_all p.name) l (Sound-find t a p g e).covered))
        e (ap (λ x. due x p.name) l))
Returns-stop_found t reply a p (running inc) l e g =
    Returns-map (Keeps a) Inv _ (λ b k. k.0)
      (Returns-start_found t park (Waiter.stop reply ∷ []) a p g
        (quiet_running a.stop_all p.name inc
          (subst (Covered a.stop_all p.name) l (Sound-find t a p g e).covered))
        e (ap (λ x. due x p.name) l))

Returns-stop_target :
    (t : Text) (reply : ℕ) (a : Actor) (o : Option ManagedProcess)
    → find a.pm t ≡ o
    → Inv a
    → Returns Inv (stop_target t reply o a)
Returns-stop_target t reply a none e g = g
Returns-stop_target t reply a (some p) e g = Returns-stop_found t reply a p p.life refl e g

pub Returns-stop :
    (os : Os) (t : Text) (reply : ℕ) (a : Actor) → Inv a → Returns Inv (handle_stop os t reply a)
unfolding handle_stop
Returns-stop os t reply a g = Returns-stop_target t reply (refresh os a) _ refl (Inv-refresh os a g)

Covered-none : (b : Option StopAllBatch) (k : Text) (l : Life) → b ≡ none → Covered b k l
Covered-none none k l e = tt
Covered-none (some b) k l e = absurd (cc)

Returns-restart_found :
    (t : Text) (reply : ℕ) (a : Actor) (p : ManagedProcess) (life : Life)
    → p.life ≡ life
    → a.stop_all ≡ none
    → find a.pm t ≡ some p
    → Inv a
    → Returns Inv (restart_found t reply p life a)
Returns-restart_found t reply a p (stopping leader_exit after_stop ws) l quiet e g =
    Inv-update t _ a (λ p. refl)
      (λ k q s.
        Sound-life a.pm.next_generation a.tasks a.stop_all k q (join_restart reply q.life)
          (due-join_restart reply q.life k)
          (λ c. Covered-none a.stop_all k (join_restart reply q.life) quiet)
          (is_due-join_restart reply q.life) s)
      g
Returns-restart_found t reply a p (exited code why inc timer) l quiet e g =
    Returns-map (Keeps a) Inv _ (λ b k. k.0)
      (Returns-start_found t (AfterStop.respawn RespawnReason.manual) (Waiter.restart reply ∷ []) a
        p g quiet e (ap (λ x. due x p.name) l))
Returns-restart_found t reply a p (running inc) l quiet e g =
    Returns-map (Keeps a) Inv _ (λ b k. k.0)
      (Returns-start_found t (AfterStop.respawn RespawnReason.manual) (Waiter.restart reply ∷ []) a
        p g quiet e (ap (λ x. due x p.name) l))

Returns-restart_target :
    (t : Text) (reply : ℕ) (a : Actor) (o : Option ManagedProcess)
    → find a.pm t ≡ o
    → a.stop_all ≡ none
    → Inv a
    → Returns Inv (restart_target t reply o a)
Returns-restart_target t reply a none e quiet g = g
Returns-restart_target t reply a (some p) e quiet g =
    Returns-restart_found t reply a p p.life refl quiet e g

-- The two ways past the stop-all guard.
pub Returns-unless :
    (P : Actor → Type 0) (b : Option StopAllBatch) (refused go : Option Actor)
    → Returns P refused
    → (b ≡ none → Returns P go)
    → Returns P (unless_busy b refused go)
Returns-unless P none refused go r f = f refl
Returns-unless P (some b) refused go r f = r

pub Returns-restart :
    (os : Os) (t : Text) (reply : ℕ) (a : Actor) → Inv a → Returns Inv (handle_restart os t reply a)
unfolding handle_restart refresh
Returns-restart os t reply a g =
    Returns-unless Inv a.stop_all _ _ g
      λ quiet. Returns-restart_target t reply (refresh os a) _ refl quiet (Inv-refresh os a g)

-- A timer or a watcher carries the name of the record whose generation it carries.
abbrev pub IssuedFor : Text → ℕ → Actor → Type 0
IssuedFor name generation a =
    (p : ManagedProcess) → find a.pm name ≡ some p → p.generation ≡ generation → p.name ≡ name

Returns-restart_due :
    (name : Text) (due_now : Bool) (reason : RespawnReason) (f : ManagedProcess → ManagedProcess)
    (a : Actor) (p : ManagedProcess)
    → ((q : ManagedProcess) → (f q).life ≡ q.life)
    → ((q : ManagedProcess) → (f q).name ≡ q.name)
    → ((q : ManagedProcess) → (f q).generation ≡ q.generation)
    → (due_now ≡ true
        → (Idle p)
          × (p.name ≡ name)
          × ((life : Life)
              → is_due life ≡ false
              → InBudget (f p).restart_policy (f p).restart_count life))
    → Inv a
    → a.stop_all ≡ none
    → find a.pm name ≡ some p
    → Returns Inv (restart_due name due_now reason f a)
unfolding find
Returns-restart_due name false reason f a p fl fn fg ready g quiet e = g
Returns-restart_due name true reason f a p fl fn fg ready g quiet e =
    let (idle, own, budget) = ready refl in
    let there = (find_in-Reaches name a.pm.processes p (Good-Named _ _ _ _ g) g.distinct e).0 in
    Returns-map (Keeps a) Inv _ (λ b k. k.0)
      (Returns-start name (AfterStop.respawn reason) [] a p f fl fn fg budget g quiet
        (subst (λ i. lookup i a.pm.processes ≡ some p) own there) own idle)

Idle-is_due : (p : ManagedProcess) (life : Life) → p.life ≡ life → is_due life ≡ true → Idle p
Idle-is_due p (running inc) l h = absurd (cc)
Idle-is_due p (exited code why inc timer) l h = ap (λ x. due x p.name) l
Idle-is_due p (stopping leader_exit after_stop ws) l h = absurd (cc)

Idle-watch :
    (p : ManagedProcess) (life : Life) → p.life ≡ life → may_watch_restart life ≡ true → Idle p
Idle-watch p (running inc) l h = ap (λ x. due x p.name) l
Idle-watch p (exited code why inc timer) l h = ap (λ x. due x p.name) l
Idle-watch p (stopping leader_exit after_stop ws) l h = absurd (cc)

-- One more automatic restart stays within the maximum.
InBudget-count_up :
    (rp : Option RestartPolicy) (count : ℕ) (old life : Life)
    → InBudget rp count old
    → is_due old ≡ true
    → is_due life ≡ false
    → InBudget rp ((count + 1) % 2 ^ 32) life
InBudget-count_up none count old life b now later = tt
InBudget-count_up (some rp) count old life b now later = under rp.max_restarts b
  where
    under : (max : Option ℕ) → UnderMax max count old → UnderMax max ((count + 1) % 2 ^ 32) life
    under none u = tt
    under (some max) u = (omega (arith, u.1 now), λ h. ground arith)

InBudget-zero : (rp : Option RestartPolicy) (life : Life) → is_due life ≡ false → InBudget rp 0 life
InBudget-zero none life later = tt
InBudget-zero (some rp) life later = under rp.max_restarts
  where
    under : (max : Option ℕ) → UnderMax max 0 life
    under none = tt
    under (some max) = (omega arith, λ h. ground arith)

both_true : (x y : Bool) → (x && y) ≡ true → (x ≡ true) × (y ≡ true)
both_true x y h = ground arith

Returns-auto_restart_found :
    (name : Text) (generation : ℕ) (a : Actor) (o : Option ManagedProcess)
    → find a.pm name ≡ o
    → IssuedFor name generation a
    → a.stop_all ≡ none
    → Inv a
    → Returns Inv (auto_restart_found name generation o a)
Returns-auto_restart_found name generation a none e mine quiet g = g
Returns-auto_restart_found name generation a (some p) e mine quiet g =
    Returns-restart_due name (p.generation == generation && is_due p.life) RespawnReason.auto
      count_up a p (λ q. refl) (λ q. refl) (λ q. refl) ready g quiet e
  where
    ready :
        (p.generation == generation && is_due p.life) ≡ true
        → (Idle p)
          × (p.name ≡ name)
          × ((life : Life)
              → is_due life ≡ false
              → InBudget p.restart_policy ((p.restart_count + 1) % 2 ^ 32) life)
    ready h =
        let (same, due_now) = both_true _ _ h in
        (
          Idle-is_due p p.life refl due_now,
          mine p e ((==_iff p.generation generation).0 same),
          λ life later.
              InBudget-count_up p.restart_policy p.restart_count p.life life
                (Sound-find name a p g e).in_budget due_now later,
        )

pub Returns-auto_restart :
    (name : Text) (generation : ℕ) (a : Actor)
    → IssuedFor name generation a
    → Inv a
    → Returns Inv (handle_auto_restart name generation a)
unfolding handle_auto_restart
Returns-auto_restart name generation a mine g =
    Returns-unless Inv a.stop_all _ _ g
      λ quiet. Returns-auto_restart_found name generation a _ refl mine quiet g

Returns-watch_restart_found :
    (name : Text) (generation : ℕ) (a : Actor) (o : Option ManagedProcess)
    → find a.pm name ≡ o
    → IssuedFor name generation a
    → a.stop_all ≡ none
    → Inv a
    → Returns Inv (watch_restart_found name generation o a)
Returns-watch_restart_found name generation a none e mine quiet g = g
Returns-watch_restart_found name generation a (some p) e mine quiet g =
    Returns-restart_due name (p.generation == generation && may_watch_restart p.life)
      RespawnReason.watch count_zero a p (λ q. refl) (λ q. refl) (λ q. refl) ready g quiet e
  where
    ready :
        (p.generation == generation && may_watch_restart p.life) ≡ true
        → (Idle p)
          × (p.name ≡ name)
          × ((life : Life) → is_due life ≡ false → InBudget p.restart_policy 0 life)
    ready h =
        let (same, may) = both_true _ _ h in
        (
          Idle-watch p p.life refl may,
          mine p e ((==_iff p.generation generation).0 same),
          λ life later. InBudget-zero p.restart_policy life later,
        )

pub Returns-watch_restart :
    (name : Text) (generation : ℕ) (a : Actor)
    → IssuedFor name generation a
    → Inv a
    → Returns Inv (handle_watch_restart name generation a)
unfolding handle_watch_restart
Returns-watch_restart name generation a mine g =
    Returns-unless Inv a.stop_all _ _ g
      λ quiet. Returns-watch_restart_found name generation a _ refl mine quiet g
