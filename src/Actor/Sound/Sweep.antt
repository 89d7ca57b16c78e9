-- ===== src/Actor/Sound/Sweep.antt =====
-- The loop of `stop-all`: every record is parked, or waits for its teardown.
use agent_procs.Prelude.{
  ℕ, ◌≡◌, refl, sym, ap, subst, ◌∙◌, ◌⊎◌, inl, inr, true, List, [], ◌∷◌, ◌++◌, Option, none, some,
  Text, text_eq, text_eq_iff, text_eq_refl, arith, Option-cases, Bool-cases, is_some,
}
use mathlib.Core.Option.{some-injective}
use agent_procs.Prelude.Maps.{Map, lookup, adjust, has_key}
use agent_procs.Prelude.Int.{ℤ}
use agent_procs.Manager.Os.{Os}
use agent_procs.Manager.Types.{
  ManagedProcess, Life, running, exited, stopping, AfterStop, park, Waiter,
}
use agent_procs.Manager.Table.{find, update, update_in, names}
use agent_procs.Manager.Table.Keys.{lookup-adjust_other, has_key-adjust, has_key-keys}
use agent_procs.Manager.Table.Laws.{
  Entries-lookup, Entries-of_lookup, update_in-lookup, lookup-adjust_self, find_in-lookup,
}
use agent_procs.Actor.State.{Actor, StopAllBatch, update_pm, refresh}
use agent_procs.Actor.Teardown.{
  start_teardown, begin_stop, park_life, stop_one, stop_each, handle_stop_all, wait_for,
  stop_all_found,
}
use agent_procs.Actor.Commands.{is_due}
use agent_procs.Actor.Sound.{Sound, Good, Inv, due, Covered, Returns, listed}
use agent_procs.Actor.Sound.Stops.{
  Good-stop, InBudget-idle, start_teardown_found, begun-stopping, stopped_record, can_begin,
}
use agent_procs.Actor.Sound.Handlers.{Inv-update, Sound-life, Inv-publish}
use agent_procs.Actor.Sound.Settle.{close-Inv}
use agent_procs.Actor.Sound.Refresh.{Inv-refresh}

abbrev pub waiting : List Text → StopAllBatch
waiting rest = record { remaining = rest; replies = [] }

Covered-replies :
    (rest : List Text) (rs : List ℕ) (k : Text) (life : Life)
    → Covered (some (waiting rest)) k life
    → Covered (some (record { remaining = rest; replies = rs })) k life
Covered-replies rest rs k (running inc) c = c
Covered-replies rest rs k (exited code why none timer) c = c
Covered-replies rest rs k (exited code why (some inc) timer) c = c
Covered-replies rest rs k (stopping leader_exit after_stop ws) c = c

Covered-more :
    (n : Text) (rest : List Text) (k : Text) (life : Life)
    → Covered (some (waiting rest)) k life
    → Covered (some (waiting (n ∷ rest))) k life
Covered-more n rest k (running inc) c = c
Covered-more n rest k (exited code why none timer) c = c
Covered-more n rest k (exited code why (some inc) timer) c = c
Covered-more n rest k (stopping leader_exit after_stop ws) c = (c.0, ground (arith, c.1))

-- Each record under a name is still to do, or swept.
abbrev pub Swept : List Text → List Text → Map ManagedProcess → Type 0
Swept todo rest m =
    (k : Text) (p : ManagedProcess)
    → lookup k m ≡ some p
    → (listed k todo ≡ true) ⊎ Covered (some (waiting rest)) k p.life

pub record Sweep (todo rest : List Text) (a : Actor) : Type 0 where
  pub quiet : a.stop_all ≡ none
  pub good : Inv a
  pub keys : (k : Text) → listed k todo ≡ true → has_key k a.pm.processes ≡ true
  pub swept : Swept todo rest a.pm.processes

abbrev pub SweepResult : List Text → Option (List Text × Actor) → Type 0
SweepResult todo none = ⊥
SweepResult todo (some (rest, a)) = Sweep todo rest a

-- The write of one round: the record under `n` is covered by it, and the others stay.
Swept-write :
    (n : Text) (todo rest : List Text) (m : Map ManagedProcess) (p : ManagedProcess)
    (f : ManagedProcess → ManagedProcess)
    → lookup n m ≡ some p
    → Covered (some (waiting (n ∷ rest))) n (f p).life
    → Swept (n ∷ todo) rest m
    → Swept todo (n ∷ rest) (adjust n f m)
Swept-write n todo rest m p f e cover before k q found = elim (Bool-cases (text_eq n k)) [
  | inl same ↦
      let own = (text_eq_iff n k).0 same in
      let written = lookup-adjust_self n f m p e in
      let fq : f p ≡ q =
        some-injective (f p) q
          (sym written ∙ subst (λ i. lookup i (adjust n f m) ≡ some q) (sym own) found) in
      inr (
        subst (λ i. Covered (some (waiting (n ∷ rest))) i q.life) own
          (subst (λ r. Covered (some (waiting (n ∷ rest))) n r.life) fq cover))
  | inr other ↦ elim (before k q (sym (lookup-adjust_other n k f m other) ∙ found)) [
    | inl later ↦ inl (ground (arith, later, other))
    | inr c ↦ inr (Covered-more n rest k q.life c)
  ]
]

keys-write :
    (n : Text) (todo : List Text) (m : Map ManagedProcess) (f : ManagedProcess → ManagedProcess)
    → ((k : Text) → listed k (n ∷ todo) ≡ true → has_key k m ≡ true)
    → (k : Text) → listed k todo ≡ true
    → has_key k (adjust n f m) ≡ true
keys-write n todo m f before k h = has_key-adjust n k f m ∙ before k (ground (arith, h))

due-park : (l : Life) (k : Text) → due (park_life l) k ≡ due l k
due-park (running inc) k = refl
due-park (exited code why inc timer) k = refl
due-park (stopping leader_exit after_stop ws) k = refl

is_due-park : (l : Life) → is_due (park_life l) ≡ is_due l
is_due-park (running inc) = refl
is_due-park (exited code why inc timer) = refl
is_due-park (stopping leader_exit after_stop ws) = refl

module _ (n : Text) (todo rest : List Text) (a : Actor) (s : Sweep (n ∷ todo) rest a)
    (p : ManagedProcess) (e : lookup n a.pm.processes ≡ some p) where
  sound : Sound a.pm.next_generation a.tasks a.stop_all n p
  sound =
      Entries-lookup (Sound a.pm.next_generation a.tasks a.stop_all) n a.pm.processes p s.good.sound
        e

  Sweep-skip : Covered (some (waiting rest)) n p.life → Sweep todo rest a
  Sweep-skip c = record {
    quiet = s.quiet;
    good = s.good;
    keys = λ k h. s.keys k (ground (arith, h));
    swept = λ k q found. elim (s.swept k q found) [
      | inl h ↦ elim (Bool-cases (text_eq n k)) [
        | inl same ↦
            let own = (text_eq_iff n k).0 same in
            let pq : p ≡ q =
              some-injective p q
                (sym e ∙ subst (λ i. lookup i a.pm.processes ≡ some q) (sym own) found) in
            inr (
              subst (λ i. Covered (some (waiting rest)) i q.life) own
                (subst (λ r. Covered (some (waiting rest)) n r.life) pq c))
        | inr other ↦ inl (ground (arith, h, other))
      ]
      | inr d ↦ inr d
    ];
  }

  Sweep-park :
      (leader_exit : Option (Option ℤ)) (after_stop : AfterStop) (ws : List Waiter)
      → p.life ≡ stopping leader_exit after_stop ws
      → Sweep todo (n ∷ rest) (update_pm n (λ q. record q { life = park_life q.life }) a)
  unfolding update
  Sweep-park leader_exit after_stop ws l =
      let f : ManagedProcess → ManagedProcess = λ q. record q { life = park_life q.life } in
      let written = update_in-lookup n f a.pm.processes p e in
      record {
        quiet = s.quiet;
        good =
            Inv-update n f a (λ q. refl)
              (λ k q t.
                Sound-life a.pm.next_generation a.tasks a.stop_all k q (park_life q.life)
                  (due-park q.life k)
                  (λ c. subst (λ b. Covered b k (park_life q.life)) (sym s.quiet) tt)
                  (is_due-park q.life) t)
              s.good;
        keys = rw written (keys-write n todo a.pm.processes f s.keys);
        swept = rw written (
            Swept-write n todo rest a.pm.processes p f e
              (subst (λ life. Covered (some (waiting (n ∷ rest))) n (park_life life)) (sym l)
                (refl, ground (arith, text_eq_refl n)))
              s.swept);
      }

  begun-Covered :
      (old life : Life)
      → begin_stop old park [] ≡ some life
      → Covered (some (waiting (n ∷ rest))) n life
  begun-Covered (running inc) life b =
      subst (Covered (some (waiting (n ∷ rest))) n) (some-injective (stopping none park []) life b)
        (refl, ground (arith, text_eq_refl n))
  begun-Covered (exited code why inc timer) life b =
      subst (Covered (some (waiting (n ∷ rest))) n)
        (some-injective (stopping (some code) park []) life b)
        (refl, ground (arith, text_eq_refl n))
  begun-Covered (stopping leader_exit after_stop ws) life b = absurd (cc)

  Sweep-start :
      due p.life n ≡ []
      → SweepResult todo
          (elim (start_teardown n park [] a) [ none ↦ none | some b ↦ some (n ∷ rest, b) ])
  unfolding find update
  Sweep-start idle =
      let (life, begun) = can_begin p.life park [] n idle in
      let f = stopped_record life in
      let m = a.pm.processes in
      let written = update_in-lookup n f m p e in
      let own = sound.named in
      let facts = begun-stopping p.life park [] life n begun in
      rw (start_teardown_found n park [] a p life (find_in-lookup n m p e) begun) (record {
        quiet = s.quiet;
        good =
            subst (λ b. Good a.pm.next_generation ((n, p.generation) ∷ a.tasks) b (update_in n f m))
              (sym s.quiet)
              (rw written (
                subst
                  (λ i. Good a.pm.next_generation ((i, p.generation) ∷ a.tasks) none (adjust i f m))
                  own
                  (Good-stop a.pm.next_generation a.tasks m p f
                    (subst (λ i. due p.life i ≡ []) (sym own) idle) refl refl
                    (begun-stopping p.life park [] life p.name begun).1
                    (InBudget-idle p.restart_policy p.restart_count p.life life sound.in_budget
                      facts.2)
                    (subst (λ b. Good a.pm.next_generation a.tasks b m) s.quiet s.good)
                    (subst (λ i. lookup i m ≡ some p) (sym own) e))));
        keys = rw written (keys-write n todo m f s.keys);
        swept =
            rw written (Swept-write n todo rest m p f e (begun-Covered p.life life begun) s.swept);
      })

  Sweep-one : (life : Life) → p.life ≡ life → SweepResult todo (stop_one n life (rest, a))
  Sweep-one (stopping leader_exit after_stop ws) l = Sweep-park leader_exit after_stop ws l
  Sweep-one (exited code why none timer) l =
      Sweep-skip (subst (Covered (some (waiting rest)) n) (sym l) tt)
  Sweep-one (exited code why (some inc) timer) l = Sweep-start (ap (λ x. due x n) l)
  Sweep-one (running inc) l = Sweep-start (ap (λ x. due x n) l)

Sweep-next :
    (todo : List Text) (o : Option (List Text × Actor))
    → ((rest : List Text) (b : Actor)
        → Sweep todo rest b
        → SweepResult [] (stop_each todo (rest, b)))
    → SweepResult todo o
    → SweepResult [] (elim o [ none ↦ none | some t ↦ stop_each todo t ])
Sweep-next todo none f r = r
Sweep-next todo (some (rest, b)) f r = f rest b r

Sweep-each :
    (todo rest : List Text) (a : Actor)
    → Sweep todo rest a
    → SweepResult [] (stop_each todo (rest, a))
unfolding stop_each find
Sweep-each [] rest a s = s
Sweep-each (n ∷ todo) rest a s = elim (Option-cases (lookup n a.pm.processes)) [
  | inl e ↦
      let there = s.keys n (ground (arith, text_eq_refl n)) in
      absurd (ground (arith, there, ap is_some e))
  | inr (p, e) ↦
      subst
        (λ o. SweepResult [] (elim o [
          | none ↦ stop_each todo (rest, a)
          | some q ↦ elim (stop_one n q.life (rest, a)) [ none ↦ none | some t ↦ stop_each todo t ]
        ]))
        (sym (find_in-lookup n a.pm.processes p e))
        (Sweep-next todo _ (λ rest' b t. Sweep-each todo rest' b t)
          (Sweep-one n todo rest a s p e p.life refl))
]

Good-batch :
    (n : ℕ) (ts : List (Text × ℕ)) (b b' : Option StopAllBatch) (m : Map ManagedProcess)
    → ((k : Text) (p : ManagedProcess)
        → lookup k m ≡ some p
        → Covered b k p.life
        → Covered b' k p.life)
    → Good n ts b m
    → Good n ts b' m
Good-batch n ts b b' m cover g = record {
  distinct = g.distinct;
  sound = Entries-of_lookup (Sound n ts b') m g.distinct (λ k p e.
      let s = Entries-lookup (Sound n ts b) k m p g.sound e in
      record {
        named = s.named;
        issued = s.issued;
        tracked = s.tracked;
        covered = cover k p e s.covered;
        in_budget = s.in_budget;
      });
  bounded = g.bounded;
}

Swept-now :
    (rest : List Text) (rs : List ℕ) (m : Map ManagedProcess) (k : Text) (p : ManagedProcess)
    → Swept [] rest m
    → lookup k m ≡ some p
    → Covered (some (record { remaining = rest; replies = rs })) k p.life
Swept-now rest rs m k p s e = elim (s k p e) [
  | inl h ↦ absurd (cc)
  | inr c ↦ Covered-replies rest rs k p.life c
]

wait_for-Returns :
    (reply : ℕ) (o : Option (List Text × Actor)) → SweepResult [] o → Returns Inv (wait_for reply o)
wait_for-Returns reply none r = r
wait_for-Returns reply (some (rest, c)) r = Inv-publish _ (
    close-Inv rest _ (
      Good-batch c.pm.next_generation c.tasks c.stop_all
        (some (record { remaining = rest; replies = reply ∷ [] })) c.pm.processes
        (λ k p e h. Swept-now rest (reply ∷ []) c.pm.processes k p r.swept e) r.good))

join_batch :
    (reply : ℕ) (a : Actor) (b : StopAllBatch)
    → a.stop_all ≡ some b
    → Inv a
    → Inv (record a {
      stop_all = some (record { remaining = b.remaining; replies = b.replies ++ reply ∷ [] });
    })
join_batch reply a b e g =
    Good-batch a.pm.next_generation a.tasks a.stop_all _ a.pm.processes
      (λ k p found c. again k p.life (subst (λ x. Covered x k p.life) e c)) g
  where
    again :
        (k : Text) (life : Life)
        → Covered (some b) k life
        → Covered
            (some (record { remaining = b.remaining; replies = b.replies ++ reply ∷ [] }))
            k
            life
    again k (running inc) c = c
    again k (exited code why none timer) c = c
    again k (exited code why (some inc) timer) c = c
    again k (stopping leader_exit after_stop ws) c = c

pub refresh-Sweep :
    (os : Os) (a : Actor)
    → a.stop_all ≡ none
    → Inv a
    → SweepResult [] (stop_each (names (refresh os a).pm) ([], refresh os a))
unfolding names refresh
refresh-Sweep os a e g =
    let b = refresh os a in
    Sweep-each (names b.pm) [] b (record {
      quiet = e;
      good = Inv-refresh os a g;
      keys = λ k h. sym (has_key-keys k b.pm.processes) ∙ h;
      swept = λ k p found. inl (has_key-keys k b.pm.processes ∙ ap is_some found);
    })

stop_all_found-Returns :
    (os : Os) (reply : ℕ) (a : Actor) (b : Option StopAllBatch)
    → a.stop_all ≡ b
    → Inv a
    → Returns Inv (stop_all_found os reply b a)
stop_all_found-Returns os reply a (some b) e g = join_batch reply a b e g
stop_all_found-Returns os reply a none e g = wait_for-Returns reply _ (refresh-Sweep os a e g)

pub Returns-stop_all :
    (os : Os) (reply : ℕ) (a : Actor) → Inv a → Returns Inv (handle_stop_all os reply a)
unfolding handle_stop_all
Returns-stop_all os reply a g = stop_all_found-Returns os reply a a.stop_all refl g
