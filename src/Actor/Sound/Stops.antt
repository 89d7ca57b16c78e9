-- ===== src/Actor/Sound/Stops.antt =====
-- Starting a teardown does not panic and keeps the invariant.
use agent_procs.Prelude.{
  ℕ, ◌≤◌, ◌≡◌, ◌≢◌, refl, sym, ap, subst, ◌∙◌, List, [], ◌∷◌, Option, none, some, Text, arith, inl,
  ==_refl, false,
}
use agent_procs.Prelude.Maps.{Map, lookup, adjust}
use agent_procs.Manager.Types.{ManagedProcess, Life, running, exited, stopping, AfterStop, Waiter}
use agent_procs.Manager.Table.{find, update, update_in}
use agent_procs.Manager.Table.Laws.{
  Entries-lookup, Entries-adjust, Distinct-adjust, find_in-Reaches, update_in-lookup,
  lookup-adjust_self, adjust-adjust, find_in-lookup, adjust_id_lem,
}
use agent_procs.Actor.State.{Actor}
use agent_procs.Protocol.{RestartPolicy}
use agent_procs.Actor.Commands.{is_due}
use agent_procs.Actor.Teardown.{start_teardown, begin_stop}
use agent_procs.Actor.Sound.{Sound, Good, Inv, due, InBudget, Returns, names_at, UnderMax}
use agent_procs.Actor.Sound.Writes.{Good-Named}

names_at_other :
    (g : ℕ) (name : Text) (h : ℕ) (ts : List (Text × ℕ))
    → g ≢ h
    → names_at g ((name, h) ∷ ts) ≡ names_at g ts
names_at_other g name h ts d = ground arith

-- The record `p`, not yet stopping, becomes the stopping `f p`, and its task is added.
pub Good-stop :
    (n : ℕ) (ts : List (Text × ℕ)) (m : Map ManagedProcess) (p : ManagedProcess)
    (f : ManagedProcess → ManagedProcess)
    → due p.life p.name ≡ []
    → (f p).name ≡ p.name
    → (f p).generation ≡ p.generation
    → due (f p).life p.name ≡ p.name ∷ []
    → InBudget (f p).restart_policy (f p).restart_count (f p).life
    → Good n ts none m
    → lookup p.name m ≡ some p
    → Good n ((p.name, p.generation) ∷ ts) none (adjust p.name f m)
Good-stop n ts m p f idle same_name same_gen stopping_now budget g e = record {
  distinct = Distinct-adjust p.name f m p g.distinct e (inl same_gen);
  sound =
      Entries-adjust (Sound n ts none) (Sound n ((p.name, p.generation) ∷ ts) none) p.name f m p
        others g.distinct g.sound e own;
  bounded = ((Entries-lookup (Sound n ts none) p.name m p g.sound e).issued, g.bounded);
}
  where
    others :
        (j : Text) (q : ManagedProcess)
        → q.generation ≢ p.generation
        → Sound n ts none j q
        → Sound n ((p.name, p.generation) ∷ ts) none j q
    others j q d s = record {
      named = s.named;
      issued = s.issued;
      tracked = names_at_other q.generation p.name p.generation ts d ∙ s.tracked;
      covered = tt;
      in_budget = s.in_budget;
    }

    own : Sound n ts none p.name p → Sound n ((p.name, p.generation) ∷ ts) none p.name (f p)
    own s = record {
      named = same_name;
      issued = subst (λ g. g ≤ n) (sym same_gen) s.issued;
      tracked =
          subst (λ g. names_at g ((p.name, p.generation) ∷ ts) ≡ due (f p).life p.name)
            (sym same_gen)
            (rw (==_refl p.generation) (ap (◌∷◌ p.name) (s.tracked ∙ idle) ∙ sym stopping_now));
      covered = tt;
      in_budget = budget;
    }

abbrev pub stopped_record : Life → ManagedProcess → ManagedProcess
stopped_record life q = record q { life = life; watch_handle = false }

pub begun-stopping :
    (old : Life) (after_stop : AfterStop) (ws : List Waiter) (life : Life) (k : Text)
    → begin_stop old after_stop ws ≡ some life
    → (due old k ≡ []) × (due life k ≡ k ∷ []) × (is_due life ≡ false)
begun-stopping (running inc) after_stop ws life k e = ground arith
begun-stopping (exited code why inc timer) after_stop ws life k e = ground arith
begun-stopping (stopping leader_exit other others) after_stop ws life k e = ground arith

-- A budget holds of a life that is not due if the count is within the maximum.
pub InBudget-idle :
    (rp : Option RestartPolicy) (count : ℕ) (old life : Life)
    → InBudget rp count old
    → is_due life ≡ false
    → InBudget rp count life
InBudget-idle none count old life b e = tt
InBudget-idle (some rp) count old life b e = under rp.max_restarts b
  where
    under : (max : Option ℕ) → UnderMax max count old → UnderMax max count life
    under none u = tt
    under (some max) u = (u.0, λ h. ground arith)

abbrev pub Idle : ManagedProcess → Type 0
Idle p = due p.life p.name ≡ []

abbrev pub Keeps : Actor → Actor → Type 0
Keeps a b = Inv b × (b.stop_all ≡ a.stop_all)

pub can_begin :
    (old : Life) (after_stop : AfterStop) (ws : List Waiter) (k : Text)
    → due old k ≡ []
    → (life : Life) × (begin_stop old after_stop ws ≡ some life)
can_begin (running inc) after_stop ws k e = (stopping none after_stop ws, refl)
can_begin (exited code why inc timer) after_stop ws k e = (stopping (some code) after_stop ws, refl)
can_begin (stopping leader_exit other others) after_stop ws k e = absurd (cc)

pub start_teardown_found :
    (name : Text) (after_stop : AfterStop) (ws : List Waiter) (a : Actor) (p : ManagedProcess)
    (life : Life)
    → find a.pm name ≡ some p
    → begin_stop p.life after_stop ws ≡ some life
    → start_teardown name after_stop ws a
      ≡ some (record a {
        pm = update a.pm name (stopped_record life);
        tasks = (name, p.generation) ∷ a.tasks;
      })
unfolding start_teardown
start_teardown_found name after_stop ws a p life e l =
    rw (e, start_teardown) (rw (l, start_teardown))

update_twice :
    (k : Text) (f h : ManagedProcess → ManagedProcess) (m : Map ManagedProcess) (p : ManagedProcess)
    → lookup k m ≡ some p
    → update_in k h (update_in k f m) ≡ adjust k (λ q. h (f q)) m
update_twice k f h m p e =
    ap (update_in k h) (update_in-lookup k f m p e)
    ∙ update_in-lookup k h (adjust k f m) (f p) (lookup-adjust_self k f m p e)
    ∙ adjust-adjust k f h m

-- The call of `start_teardown` for an idle record `p`, after a write `f` that leaves its life alone.
pub Returns-start :
    (k : Text) (after_stop : AfterStop) (ws : List Waiter) (a : Actor) (p : ManagedProcess)
    (f : ManagedProcess → ManagedProcess)
    → ((q : ManagedProcess) → (f q).life ≡ q.life)
    → ((q : ManagedProcess) → (f q).name ≡ q.name)
    → ((q : ManagedProcess) → (f q).generation ≡ q.generation)
    → ((life : Life) → is_due life ≡ false → InBudget (f p).restart_policy (f p).restart_count life)
    → Inv a
    → a.stop_all ≡ none
    → lookup k a.pm.processes ≡ some p
    → p.name ≡ k
    → Idle p
    → Returns (Keeps a) (start_teardown k after_stop ws (record a { pm = update a.pm k f }))
unfolding find update
Returns-start k after_stop ws a p f same_life same_name same_gen budget g quiet e own idle =
    let (life, begun) =
      can_begin (f p).life after_stop ws p.name (ap (λ l. due l p.name) (same_life p) ∙ idle) in
    let m = a.pm.processes in
    let b : Actor = record a { pm = update a.pm k f } in
    let there : lookup k b.pm.processes ≡ some (f p) =
      rw (update_in-lookup k f m p e) (lookup-adjust_self k f m p e) in
    rw (start_teardown_found k after_stop ws b (f p) life (find_in-lookup k _ (f p) there) begun) (
      subst
          (λ s.
            Good a.pm.next_generation ((k, (f p).generation) ∷ a.tasks) s
              (update_in k (stopped_record life) (update_in k f m)))
          (sym quiet)
          (rw (update_twice k f (stopped_record life) m p e, same_gen p)
            (subst
              (λ i.
                Good a.pm.next_generation ((i, p.generation) ∷ a.tasks) none
                  (adjust i (λ q. stopped_record life (f q)) m))
              own
              (Good-stop a.pm.next_generation a.tasks m p (λ q. stopped_record life (f q)) idle
                (same_name p) (same_gen p) (begun-stopping _ after_stop ws life p.name begun).1
                (budget life (begun-stopping _ after_stop ws life p.name begun).2)
                (subst (λ s. Good a.pm.next_generation a.tasks s m) quiet g)
                (subst (λ i. lookup i m ≡ some p) (sym own) e)))),
      refl,
    )

-- The call of `start_teardown` for the record that `find` reaches.
pub Returns-start_found :
    (t : Text) (after_stop : AfterStop) (ws : List Waiter) (a : Actor) (p : ManagedProcess)
    → Inv a
    → a.stop_all ≡ none
    → find a.pm t ≡ some p
    → Idle p
    → Returns (Keeps a) (start_teardown p.name after_stop ws a)
unfolding find update
Returns-start_found t after_stop ws a p g quiet e idle =
    let there : lookup p.name a.pm.processes ≡ some p =
      (find_in-Reaches t a.pm.processes p (Good-Named _ _ _ _ g) g.distinct e).0 in
    let same : update_in p.name (λ q. q) a.pm.processes ≡ a.pm.processes =
      update_in-lookup p.name (λ q. q) a.pm.processes p there
      ∙ adjust_id_lem p.name a.pm.processes in
    let s = Entries-lookup (Sound _ _ _) p.name a.pm.processes p g.sound there in
    subst
      (λ x.
        Returns (Keeps a)
          (start_teardown p.name after_stop ws (record a { pm = record a.pm { processes = x } })))
      same
      (Returns-start p.name after_stop ws a p (λ q. q) (λ q. refl) (λ q. refl) (λ q. refl)
        (λ life d. InBudget-idle p.restart_policy p.restart_count p.life life s.in_budget d) g quiet
        there refl idle)
