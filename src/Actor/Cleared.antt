-- ===== src/Actor/Cleared.antt =====
-- What the end of a stop-all clears.
use agent_procs.Prelude.{
  ℕ, ◌≡◌, refl, sym, ap, subst, ◌∙◌, ◌⊎◌, inl, inr, true, List, [], ◌∷◌, ◌++◌, Option, none, some,
  Text, text_eq, text_eq_iff, ◌==◌, ==_iff, arith, Bool-cases, is_some, Option-cases,
}
use mathlib.Core.Option.{some-injective}
use agent_procs.Prelude.Int.{ℤ}
use agent_procs.Prelude.Maps.{lookup}
use agent_procs.Manager.Os.{Os}
use agent_procs.Manager.Types.{ManagedProcess, Life, running, exited, stopping, park, AfterStop}
use agent_procs.Manager.Table.{find, find_in, update, names}
use agent_procs.Manager.Table.Keys.{has_key-adjust}
use agent_procs.Manager.Table.Laws.{update_in-lookup}
use agent_procs.Actor.State.{Actor, StopAllBatch, PmCommand, publish_proxy_state, refresh}
use agent_procs.Actor.Teardown.{
  close_if_empty, finish_teardown, finish_found, settle, leave_batch, leave_found, without, parked,
  wait_for, start_teardown, stop_one, stop_each, stop_all_found, handle_stop_all,
}
use agent_procs.Actor.Commands.{handle_command}
use agent_procs.Actor.Run.{Reached, Reached-Returns}
use agent_procs.Actor.Safety.{stop_all_covers}
use agent_procs.Actor.Supersede.{publish-pm}
use agent_procs.Actor.Sound.{Covered, Good, Inv, listed}
use agent_procs.Actor.Sound.Sweep.{SweepResult, refresh-Sweep}
use agent_procs.Actor.Sound.Finish.{found_under}
use agent_procs.Actor.Sound.Settle.{listed-without}

-- No process of the record is left.
abbrev pub Gone : Life → Type 0
Gone (exited code why none timer) = Unit {0}
Gone (exited code why (some inc) timer) = ⊥
Gone (running inc) = ⊥
Gone (stopping leader_exit after_stop waiters) = ⊥

-- The last name that a stop-all waits for.
Covered-last :
    (name k : Text) (b : StopAllBatch) (life : Life)
    → Covered (some b) k life
    → without name b.remaining ≡ []
    → Gone life ⊎ (k ≡ name)
Covered-last name k b (running inc) c last = absurd c
Covered-last name k b (exited code why none timer) c last = inl tt
Covered-last name k b (exited code why (some inc) timer) c last = absurd c
Covered-last name k b (stopping leader_exit after_stop ws) c last =
    elim (Bool-cases (text_eq name k)) [
      | inl same ↦ inr (sym ((text_eq_iff name k).0 same))
      | inr other ↦ absurd (
          subst (λ ns. listed k ns ≡ true → ⊥) (sym last) (λ h. cc)
            (listed-without k name b.remaining other c.1))
    ]

-- The batch is closed only with no name left.
leave_found-cleared :
    (name k : Text) (batch : Option StopAllBatch) (b : StopAllBatch) (d : Actor)
    → batch ≡ some b
    → is_some (lookup k d.pm.processes) ≡ true
    → lookup k (leave_found name batch d).pm.processes ≡ none
    → without name b.remaining ≡ []
leave_found-cleared name k none b d e there gone = absurd (cc)
leave_found-cleared name k (some c) b d e there gone =
    ap (λ x. without name x.remaining) (sym (some-injective c b e))
    ∙ closed (without name c.remaining) gone
  where
    waits_for : List Text → Actor
    waits_for rest = record d { stop_all = some (record { remaining = rest; replies = c.replies }) }

    closed :
        (rest : List Text)
        → lookup k (close_if_empty rest (waits_for rest)).pm.processes ≡ none
        → rest ≡ []
    closed [] h = refl
    closed (n ∷ ns) h = absurd (ground (arith, ap is_some h, there))

settle-cleared :
    (os : Os) (name k : Text) (code : Option ℤ) (life : Life) (b : StopAllBatch) (a a' : Actor)
    (p q : ManagedProcess)
    → a.stop_all ≡ some b
    → Covered (some b) name life
    → lookup name a.pm.processes ≡ some p
    → lookup k a.pm.processes ≡ some q
    → settle os name code life a ≡ some a'
    → lookup k a'.pm.processes ≡ none
    → without name b.remaining ≡ []
unfolding settle leave_batch update
settle-cleared os name k code (running inc) b a a' p q s c e e' h gone = absurd (cc)
settle-cleared os name k code (exited x why inc timer) b a a' p q s c e e' h gone = absurd (cc)
settle-cleared os name k code (stopping leader_exit (AfterStop.respawn r) ws) b a a' p q s c e e' h
      gone =
    absurd (cc (c.0))
settle-cleared os name k code (stopping leader_exit park ws) b a a' p q s c e e' h gone =
    let m = a.pm.processes in
    let there =
      ap (λ x. is_some (lookup k x)) (update_in-lookup name (parked code) m p e)
      ∙ has_key-adjust name k (parked code) m
      ∙ ap is_some e' in
    leave_found-cleared name k a.stop_all b _ s there (
      ap (λ x. lookup k x.processes) (sym (publish-pm _))
      ∙ ap (λ x. lookup k x.pm.processes) (some-injective _ a' h)
      ∙ gone)

module _ (os : Os) (name : Text) (g : ℕ) (code : Option ℤ) (a a' : Actor) (b : StopAllBatch)
    (xs ys : List (Text × ℕ)) (k : Text) (q : ManagedProcess)
    (inv : Good a.pm.next_generation (xs ++ (name, g) ∷ ys) a.stop_all a.pm.processes)
    (busy : a.stop_all ≡ some b)
    (covers : (j : Text) (p : ManagedProcess)
      → lookup j a.pm.processes ≡ some p
      → Covered (some b) j p.life)
    (here : lookup k a.pm.processes ≡ some q) (gone : lookup k a'.pm.processes ≡ none) where
  found-cleared :
      (o : Option ManagedProcess)
      → find_in name a.pm.processes ≡ o
      → finish_found os name g code o (record a { tasks = xs ++ ys }) ≡ some a'
      → Gone q.life ⊎ ((k ≡ name) × (q.generation ≡ g))
  found-cleared none e h = absurd (kept h)
    where
      kept : some (record a { tasks = xs ++ ys }) ≡ some a' → ⊥
      kept h = cc (here, gone, ap (λ x. lookup k x.pm.processes) (some-injective _ a' h))
  found-cleared (some p) e h = elim (Bool-cases (p.generation == g)) [
    | inr other ↦
        let same : some (record a { tasks = xs ++ ys }) ≡ some a' = rw other at h in
        absurd (cc (here, gone, ap (λ x. lookup k x.pm.processes) (some-injective _ a' same)))
    | inl same ↦
        let gen = (==_iff p.generation g).0 same in
        let under = found_under _ g name xs ys _ _ inv p e gen in
        let settled : settle os name code p.life (record a { tasks = xs ++ ys }) ≡ some a' =
          rw same at h in
        let last =
          settle-cleared os name k code p.life b (record a { tasks = xs ++ ys }) a' p q busy
            (covers name p under) under here settled gone in
        elim (Covered-last name k b q.life (covers k q here) last) [
          | inl dead ↦ inl dead
          | inr own ↦
              let mine : p ≡ q =
                some-injective p q
                  (sym under ∙ subst (λ i. lookup i a.pm.processes ≡ some q) own here) in
              inr (own, ap (λ r. r.generation) (sym mine) ∙ gen)
        ]
  ]

-- While a stop-all runs, a finished teardown takes a record out of the table only if no process of it
-- was left, or if the teardown is that of the record itself: the table is not cleared while another
-- record still has a process.
pub stop_finished_clears_dead :
    (session : Text) (os : Os) (a a' : Actor) (b : StopAllBatch) (xs ys : List (Text × ℕ))
    (name : Text) (g : ℕ) (code : Option ℤ) (k : Text) (p : ManagedProcess)
    → Reached session (some a)
    → a.stop_all ≡ some b
    → a.tasks ≡ xs ++ (name, g) ∷ ys
    → handle_command os (PmCommand.stop_finished name g code) (record a { tasks = xs ++ ys })
      ≡ some a'
    → lookup k a.pm.processes ≡ some p
    → lookup k a'.pm.processes ≡ none
    → Gone p.life ⊎ ((k ≡ name) × (p.generation ≡ g))
unfolding handle_command finish_teardown find
stop_finished_clears_dead session os a a' b xs ys name g code k p r busy started done here gone =
    let inv =
      subst (λ ts. Good a.pm.next_generation ts a.stop_all a.pm.processes) started
        (Reached-Returns session (some a) r) in
    found-cleared os name g code a a' b xs ys k p inv busy
      (λ j q e. stop_all_covers session a b j q r busy e) here gone (find_in name a.pm.processes)
      refl done

-- A round of the loop that leaves no name to wait for changes nothing.
module _ (n : Text) (ns : List Text) (r : List Text) (a c : Actor)
    (rest : (r' : List Text) (b : Actor)
      → stop_each ns (r', b) ≡ some ([], c)
      → (r' ≡ []) × (b ≡ c)) where
  started_waits :
      (o : Option Actor)
      → ◌≡◌ {A = Option (List Text × Actor)}
          (elim (elim o as (λ x. Option (List Text × Actor)) [
            | none ↦ none
            | some b ↦ some (n ∷ r, b)
          ]) [ none ↦ none | some t ↦ stop_each ns t ])
          (some ([], c))
      → (r ≡ []) × (a ≡ c)
  started_waits none h = absurd (cc)
  started_waits (some b) h = absurd (cc ((rest (n ∷ r) b h).0))

  idle_round :
      (life : Life)
      → ◌≡◌ {A = Option (List Text × Actor)}
          (elim (stop_one n life (r, a)) [ none ↦ none | some t ↦ stop_each ns t ])
          (some ([], c))
      → (r ≡ []) × (a ≡ c)
  idle_round (stopping leader_exit after_stop ws) h = absurd (cc ((rest (n ∷ r) _ h).0))
  idle_round (exited code why none timer) h = rest r a h
  idle_round (exited code why (some inc) timer) h = started_waits (start_teardown n park [] a) h
  idle_round (running inc) h = started_waits (start_teardown n park [] a) h

idle_loop :
    (ns r : List Text) (a c : Actor) → stop_each ns (r, a) ≡ some ([], c) → (r ≡ []) × (a ≡ c)
unfolding stop_each
idle_loop [] r a c h =
    let both = some-injective (r, a) ([], c) h in (ap (λ t. t.0) both, ap (λ t. t.1) both)
idle_loop (n ∷ ns) r a c h = elim (Option-cases (find a.pm n)) [
  | inl absent ↦ idle_loop ns r a c (rw (absent, stop_each) at h)
  | inr (p, found) ↦
      idle_round n ns r a c (λ r' b. idle_loop ns r' b c) p.life (rw (found, stop_each) at h)
]

Covered-dead :
    (k : Text) (life : Life)
    → Covered (some (record { remaining = []; replies = [] })) k life
    → Gone life
Covered-dead k (running inc) c = absurd c
Covered-dead k (exited code why none timer) c = tt
Covered-dead k (exited code why (some inc) timer) c = absurd c
Covered-dead k (stopping leader_exit after_stop ws) c = absurd (cc (c.1))

publish-stop_all : (a : Actor) → (publish_proxy_state a).stop_all ≡ a.stop_all
unfolding publish_proxy_state
publish-stop_all a = ground arith

loop-dead :
    (reply : ℕ) (b a' : Actor) (o : Option (List Text × Actor)) (k : Text) (p : ManagedProcess)
    → stop_each (names b.pm) ([], b) ≡ o
    → SweepResult [] o
    → wait_for reply o ≡ some a'
    → a'.stop_all ≡ none
    → lookup k b.pm.processes ≡ some p
    → Gone p.life
loop-dead reply b a' none k p e s h idle found = absurd s
loop-dead reply b a' (some (n ∷ rest, c)) k p e s h idle found =
    absurd (cc (sym (publish-stop_all _) ∙ ap (λ x. x.stop_all) (some-injective _ a' h) ∙ idle))
loop-dead reply b a' (some ([], c)) k p e s h idle found =
    let same = (idle_loop (names b.pm) [] b c e).1 in
    elim (s.swept k p (subst (λ x. lookup k x.pm.processes ≡ some p) same found)) [
      | inl todo ↦ absurd (cc)
      | inr covered ↦ Covered-dead k p.life covered
    ]

stop_all_found-dead :
    (os : Os) (reply : ℕ) (a a' : Actor) (k : Text) (p : ManagedProcess)
    → Inv a
    → a.stop_all ≡ none
    → handle_stop_all os reply a ≡ some a'
    → a'.stop_all ≡ none
    → lookup k (refresh os a).pm.processes ≡ some p
    → Gone p.life
unfolding handle_stop_all
stop_all_found-dead os reply a a' k p g quiet h idle found =
    loop-dead reply (refresh os a) a' _ k p refl (refresh-Sweep os a quiet g)
      (subst (λ b. stop_all_found os reply b a ≡ some a') quiet h) idle found

-- A stop-all that ends at once found no process of any record left: if none is in progress before it
-- nor after it, then every record of the refreshed table had exited, with nothing of its group left.
pub stop_all_ends_dead :
    (session : Text) (os : Os) (a a' : Actor) (reply : ℕ) (k : Text) (p : ManagedProcess)
    → Reached session (some a)
    → a.stop_all ≡ none
    → handle_command os (PmCommand.stop_all reply) a ≡ some a'
    → a'.stop_all ≡ none
    → lookup k (refresh os a).pm.processes ≡ some p
    → Gone p.life
unfolding handle_command
stop_all_ends_dead session os a a' reply k p r =
    stop_all_found-dead os reply a a' k p (Reached-Returns session (some a) r)
