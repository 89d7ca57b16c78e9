-- ===== src/Actor/Sound/Settle.antt =====
-- A finished teardown never panics and keeps the invariant.
use mathlib.Core.Option.{some-injective}
use agent_procs.Protocol.{RestartPolicy, Response}
use agent_procs.Prelude.{
  ℕ, ◌+◌, ◌^◌, ◌<◌, ◌≡◌, refl, sym, ap, subst, ◌∙◌, Bool, true, false, List, [], ◌∷◌, ◌++◌, Option,
  none, some, Text, text_eq, text_eq_iff, arith, Bool-cases, inl, inr, ◌==◌, ==_iff, ◌⊎◌,
}
use agent_procs.Prelude.Int.{ℤ}
use agent_procs.Prelude.Maps.{Map, lookup}
use agent_procs.Manager.Spawn
use agent_procs.Manager.Os.{Os}
use agent_procs.Manager.Types.{
  ManagedProcess, Life, running, exited, stopping, AfterStop, park, Waiter, RespawnReason, ExitWhy,
}
use agent_procs.Manager.Table.{find, find_in, update}
use agent_procs.Manager.Table.Laws.{
  Entries-lookup, Entries-of_lookup, update_in-lookup, lookup-adjust_self,
}
use agent_procs.Actor.State.{Actor, StopAllBatch, update_pm, Effect, emit, rotated}
use agent_procs.Actor.Teardown.{
  finish_teardown, finish_found, settle, continue_after, respawn, leave_batch, leave_found,
  finish_stop_all, close_if_empty, without, parked, reset_count, finish_batch, after_respawn,
}
use agent_procs.Actor.Sound.{
  Sound, Good, Inv, due, InBudget, Covered, Returns, names_at, listed, UnderMax,
}
use agent_procs.Actor.Sound.Handlers.{Inv-publish, Inv-update}
use agent_procs.Actor.Sound.Finish.{Good-parked, Good-ignored, own_task, found_under, Covered-gone}
use agent_procs.Actor.Sound.Spawns.{GoodManager-respawn}
use agent_procs.Actor.Sound.Watch.{after_respawn-Keeps}

respawned-Inv :
    (os : Os) (name : Text) (a : Actor) (p : ManagedProcess)
    → a.pm.next_generation + 1 < 2 ^ 64
    → Inv a
    → a.stop_all ≡ none
    → lookup name a.pm.processes ≡ some p
    → names_at p.generation a.tasks ≡ []
    → Inv (record a { pm = (Spawn.respawn os a.pm name).1 })
respawned-Inv os name a p room g quiet e idle =
    let m = (Spawn.respawn os a.pm name).1 in
    subst (λ s. Good m.next_generation a.tasks s m.processes) (sym quiet)
      (GoodManager-respawn a.tasks os a.pm name p room
        (subst (λ s. Good a.pm.next_generation a.tasks s a.pm.processes) quiet g) e idle)

InBudget-reset :
    (rp : Option RestartPolicy) (count : ℕ) (life : Life)
    → InBudget rp count life
    → InBudget rp 0 life
InBudget-reset none count life b = tt
InBudget-reset (some rp) count life b = under rp.max_restarts b
  where
    under : (max : Option ℕ) → UnderMax max count life → UnderMax max 0 life
    under none u = tt
    under (some max) u = (omega arith, λ h. omega (arith, u.1 h))

reset-Inv : (name : Text) (a : Actor) → Inv a → Inv (update_pm name reset_count a)
reset-Inv name a =
    Inv-update name reset_count a (λ p. refl)
      λ k q s. record {
        named = s.named;
        issued = s.issued;
        tracked = s.tracked;
        covered = s.covered;
        in_budget = InBudget-reset q.restart_policy q.restart_count q.life s.in_budget;
      }

abbrev Quiet : Actor → Type 0
Quiet a = Inv a × (a.stop_all ≡ none)

after-Quiet :
    (os : Os) (name : Text) (reason : RespawnReason) (code : Option ℤ) (r : Response) (a : Actor)
    → Inv a
    → a.stop_all ≡ none
    → Quiet (after_respawn os name reason code r a)
after-Quiet os name reason code r a g quiet =
    let k = after_respawn-Keeps os name reason code r a g in (k.0, k.1 ∙ quiet)

-- Without a stop-all: the parked record may be respawned.
respawn-Quiet :
    (os : Os) (name : Text) (reason : RespawnReason) (code : Option ℤ) (a : Actor)
    (p : ManagedProcess)
    → a.pm.next_generation + 1 < 2 ^ 64
    → Inv a
    → a.stop_all ≡ none
    → lookup name a.pm.processes ≡ some p
    → names_at p.generation a.tasks ≡ []
    → Quiet (respawn os name reason code a).1
unfolding respawn update
respawn-Quiet os name RespawnReason.manual code a p room g quiet e idle =
    let b = update_pm name reset_count a in
    let there : lookup name b.pm.processes ≡ some (reset_count p) =
      rw (update_in-lookup name reset_count a.pm.processes p e)
        (lookup-adjust_self name reset_count a.pm.processes p e) in
    let c = record b { pm = (Spawn.respawn os b.pm name).1 } in
    after-Quiet os name RespawnReason.manual code (Spawn.respawn os b.pm name).0 c
      (respawned-Inv os name b (reset_count p) room (reset-Inv name a g) quiet there idle) quiet
respawn-Quiet os name RespawnReason.auto code a p room g quiet e idle =
    let c = record (emit (rotated name) a) { pm = (Spawn.respawn os a.pm name).1 } in
    after-Quiet os name RespawnReason.auto code (Spawn.respawn os a.pm name).0 c
      (respawned-Inv os name (emit (rotated name) a) p room g quiet e idle) quiet
respawn-Quiet os name RespawnReason.watch code a p room g quiet e idle =
    let c = record (emit (rotated name) a) { pm = (Spawn.respawn os a.pm name).1 } in
    after-Quiet os name RespawnReason.watch code (Spawn.respawn os a.pm name).0 c
      (respawned-Inv os name (emit (rotated name) a) p room g quiet e idle) quiet

continue-Quiet :
    (os : Os) (name : Text) (after_stop : AfterStop) (code : Option ℤ) (a : Actor)
    (p : ManagedProcess)
    → a.pm.next_generation + 1 < 2 ^ 64
    → Inv a
    → a.stop_all ≡ none
    → lookup name a.pm.processes ≡ some p
    → names_at p.generation a.tasks ≡ []
    → Quiet (continue_after os name after_stop code a).1
continue-Quiet os name park code a p room g quiet e idle = (g, quiet)
continue-Quiet os name (AfterStop.respawn reason) code a p room g quiet e idle =
    respawn-Quiet os name reason code a p room g quiet e idle

leave-Quiet :
    (name : Text) (a : Actor) (b : Option StopAllBatch)
    → b ≡ none
    → Inv a
    → Inv (leave_found name b a)
leave-Quiet name a none e g = g
leave-Quiet name a (some b) e g = absurd (cc)

-- With a stop-all: one name less to wait for.
pub listed-without :
    (k name : Text) (ns : List Text)
    → text_eq name k ≡ false
    → listed k ns ≡ true
    → listed k (without name ns) ≡ true
listed-without k name [] d h = h
listed-without k name (n ∷ ns) d h =
    ground
      (arith, text_eq_iff n k, text_eq_iff n name, text_eq_iff name k, listed-without k name ns)

Covered-without :
    (k name : Text) (b : StopAllBatch) (life : Life)
    → text_eq name k ≡ false
    → Covered (some b) k life
    → Covered (some (record { remaining = without name b.remaining; replies = b.replies })) k life
Covered-without k name b (running inc) d c = c
Covered-without k name b (exited code why none timer) d c = c
Covered-without k name b (exited code why (some inc) timer) d c = c
Covered-without k name b (stopping leader_exit after_stop ws) d c =
    (c.0, listed-without k name b.remaining d c.1)

pub close-Inv : (ns : List Text) (a : Actor) → Inv a → Inv (close_if_empty ns a)
unfolding finish_stop_all
close-Inv [] a g = finished a.stop_all
  where
    finished : (b : Option StopAllBatch) → Inv (finish_batch b a)
    finished none = g
    finished (some b) = record { distinct = tt; sound = tt; bounded = g.bounded }
close-Inv (n ∷ ns) a g = g

left : Text → StopAllBatch → StopAllBatch
left name b = record { remaining = without name b.remaining; replies = b.replies }

Good-left :
    (n : ℕ) (ts : List (Text × ℕ)) (b : StopAllBatch) (name : Text) (m : Map ManagedProcess)
    (q : ManagedProcess) (code : Option ℤ) (why : ExitWhy) (timer : Bool)
    → lookup name m ≡ some q
    → q.life ≡ exited code why none timer
    → Good n ts (some b) m
    → Good n ts (some (left name b)) m
unfolding left
Good-left n ts b name m q code why timer e gone g = record {
  distinct = g.distinct;
  sound = Entries-of_lookup (Sound n ts (some (left name b))) m g.distinct each;
  bounded = g.bounded;
}
  where
    cover :
        (k : Text) (p : ManagedProcess)
        → lookup k m ≡ some p
        → Covered (some b) k p.life
        → Covered (some (left name b)) k p.life
    cover k p found c = elim (Bool-cases (text_eq name k)) [
      | inl same ↦
          let own : q ≡ p =
            some-injective q p (
              sym e ∙ subst (λ i. lookup i m ≡ some p) (sym ((text_eq_iff name k).0 same)) found) in
          subst (λ r. Covered (some (left name b)) k r.life) own
            (subst (Covered (some (left name b)) k) (sym gone)
              (Covered-gone (some (left name b)) k code why timer))
      | inr other ↦ Covered-without k name b p.life other c
    ]

    each :
        (k : Text) (p : ManagedProcess) → lookup k m ≡ some p → Sound n ts (some (left name b)) k p
    each k p found =
        let s = Entries-lookup (Sound n ts (some b)) k m p g.sound found in
        record {
          named = s.named;
          issued = s.issued;
          tracked = s.tracked;
          covered = cover k p found s.covered;
          in_budget = s.in_budget;
        }

leave-Inv :
    (name : Text) (a : Actor) (b : Option StopAllBatch) (q : ManagedProcess) (code : Option ℤ)
    → a.stop_all ≡ b
    → lookup name a.pm.processes ≡ some q
    → q.life ≡ exited code ExitWhy.manual none false
    → Inv a
    → Inv (leave_found name b a)
unfolding left
leave-Inv name a none q code e found gone g = g
leave-Inv name a (some b) q code e found gone g = close-Inv (without name b.remaining) _ (
    Good-left a.pm.next_generation a.tasks b name a.pm.processes q code ExitWhy.manual false found
      gone (subst (λ s. Good a.pm.next_generation a.tasks s a.pm.processes) e g))

-- Under a stop-all the record is parked for good; without one it may be respawned.
continue-leave :
    (os : Os) (name : Text) (after_stop : AfterStop) (code : Option ℤ) (b : Option StopAllBatch)
    (es : List Effect) (a : Actor) (p : ManagedProcess)
    → a.stop_all ≡ b
    → (b ≡ none) ⊎ (after_stop ≡ park)
    → a.pm.next_generation + 1 < 2 ^ 64
    → Inv a
    → lookup name a.pm.processes ≡ some p
    → p.life ≡ exited code ExitWhy.manual none false
    → names_at p.generation a.tasks ≡ []
    → Inv (leave_batch name (record (continue_after os name after_stop code a).1 { effects = es }))
unfolding leave_batch
continue-leave os name park code b es a p e kind room g found gone idle =
    leave-Inv name (record a { effects = es }) a.stop_all p code refl found gone g
continue-leave os name (AfterStop.respawn reason) code b es a p e (inl quiet) room g found gone
      idle =
    let q = respawn-Quiet os name reason code a p room g (e ∙ quiet) found idle in
    leave-Quiet name _ _ q.1 q.0
continue-leave os name (AfterStop.respawn reason) code b es a p e (inr stays) room g found gone
      idle =
    absurd (cc)

kind_of :
    (b : Option StopAllBatch) (k : Text) (leader_exit : Option (Option ℤ)) (after_stop : AfterStop)
    (ws : List Waiter)
    → Covered b k (stopping leader_exit after_stop ws)
    → (b ≡ none) ⊎ (after_stop ≡ park)
kind_of none k leader_exit after_stop ws c = inl refl
kind_of (some b) k leader_exit after_stop ws c = inr c.0

module _ (os : Os) (name : Text) (g : ℕ) (code : Option ℤ) (a : Actor) (xs ys : List (Text × ℕ))
    (inv : Good a.pm.next_generation (xs ++ (name, g) ∷ ys) a.stop_all a.pm.processes)
    (room : a.pm.next_generation + 1 < 2 ^ 64) (here : a.tasks ≡ xs ++ ys) where
  found-Sound :
      (p : ManagedProcess)
      → lookup name a.pm.processes ≡ some p
      → Sound a.pm.next_generation (xs ++ (name, g) ∷ ys) a.stop_all name p
  found-Sound p e =
      Entries-lookup (Sound a.pm.next_generation (xs ++ (name, g) ∷ ys) a.stop_all) name
        a.pm.processes p inv.sound e

  no_task :
      (p : ManagedProcess) (life : Life)
      → p.life ≡ life
      → due life name ≡ []
      → due p.life name ≡ name ∷ []
      → ⊥
  no_task p life l idle d = ground (arith, ap (λ x. due x name) l)

  settle-Returns :
      (p : ManagedProcess) (life : Life)
      → p.life ≡ life
      → p.generation ≡ g
      → lookup name a.pm.processes ≡ some p
      → Returns Inv (settle os name code life a)
  unfolding settle update
  settle-Returns p (running inc) l same e =
      let t = own_task _ g name xs ys _ _ inv name p same (found-Sound p e) in
      absurd (no_task p (running inc) l refl t.0)
  settle-Returns p (exited c why inc timer) l same e =
      let t = own_task _ g name xs ys _ _ inv name p same (found-Sound p e) in
      absurd (no_task p (exited c why inc timer) l refl t.0)
  settle-Returns p (stopping leader_exit after_stop ws) l same e =
      let m = a.pm.processes in
      let s = found-Sound p e in
      let t = own_task _ g name xs ys _ _ inv name p same s in
      let written = update_in-lookup name (parked code) m p e in
      let parked_inv : Inv (update_pm name (parked code) a) =
        rw (written, here) (Good-parked _ g name xs ys a.stop_all m inv code p e same) in
      Inv-publish _ (
        continue-leave os name after_stop code a.stop_all _ (update_pm name (parked code) a)
          (parked code p) refl
          (kind_of a.stop_all name leader_exit after_stop ws
            (subst (Covered a.stop_all name) l s.covered))
          room parked_inv (rw written (lookup-adjust_self name (parked code) m p e)) refl
          (rw here t.2))

  finish_found-Returns :
      (o : Option ManagedProcess)
      → find_in name a.pm.processes ≡ o
      → Returns Inv (finish_found os name g code o a)
  finish_found-Returns none e =
      rw here (Good-ignored _ g name xs ys a.stop_all a.pm.processes inv (λ p e'. absurd (cc)))
  finish_found-Returns (some p) e = by_generation (Bool-cases (p.generation == g))
    where
      by_generation :
          ((p.generation == g) ≡ true) ⊎ ((p.generation == g) ≡ false)
          → Returns Inv (finish_found os name g code (some p) a)
      by_generation (inr other) =
          rw (other, here)
            (Good-ignored _ g name xs ys a.stop_all a.pm.processes inv (λ q e' d.
              let own : q ≡ p = some-injective q p (sym e' ∙ e) in
              ground (arith, ==_iff p.generation g, ap (λ r. r.generation) own)))
      by_generation (inl same) =
          let gen = (==_iff p.generation g).0 same in
          rw same (settle-Returns p p.life refl gen (found_under _ g name xs ys _ _ inv p e gen))

-- The task `(name, g)` is taken off the list, and its teardown finished.
pub Returns-finish :
    (os : Os) (name : Text) (g : ℕ) (code : Option ℤ) (a : Actor) (xs ys : List (Text × ℕ))
    → a.tasks ≡ xs ++ (name, g) ∷ ys
    → a.pm.next_generation + 1 < 2 ^ 64
    → Inv a
    → Returns Inv (finish_teardown os name g code (record a { tasks = xs ++ ys }))
unfolding finish_teardown find
Returns-finish os name g code a xs ys e room inv =
    finish_found-Returns os name g code (record a { tasks = xs ++ ys }) xs ys
      (subst (λ ts. Good a.pm.next_generation ts a.stop_all a.pm.processes) e inv) room refl _ refl
