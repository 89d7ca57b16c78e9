-- ===== src/Actor/Routes.antt =====
-- What the proxy routes to, once the actor has published it.
use agent_procs.Prelude.{
  ℕ, ◌≤◌, ◌<◌, ◌≡◌, refl, sym, ap, subst, ◌∙◌, inl, inr, Bool, true, [], ◌∷◌, Option, none, some,
  Text, text_eq, text_eq_iff, ==_iff, every, length, arith, Bool-cases,
}
use mathlib.Core.Option.{some-injective}
use agent_procs.Prelude.Maps.{Map, lookup, remove, lookup-remove}
use agent_procs.Manager.Os.{Os}
use agent_procs.Manager.Status.{running_ports}
use agent_procs.Manager.Status.Laws.{live_port, ports_of-live}
use agent_procs.Actor.State.{Actor, PmCommand, ports_eq, same_port, publish_proxy_state}
use agent_procs.Actor.Commands.{handle_command, answer_exited}
use agent_procs.Actor.Supersede.{publish-pm}
use agent_procs.Actor.Run.{Reached, Reached-Returns}
use agent_procs.Actor.Sound.Answers.{Inv-exited}
use agent_procs.Actor.Sound.{Inv}

-- No key stands twice, as in every `HashMap`.
abbrev pub UniqueKeys : Map ℕ → Type 0
UniqueKeys [] = Unit {0}
UniqueKeys ((k, n) ∷ m) = (lookup k m ≡ none) × UniqueKeys m

abbrev included : Map ℕ → Map ℕ → Bool
included b = every (λ e. same_port (lookup e.0 b) e.1)

same_port-some : (o : Option ℕ) (n : ℕ) → same_port o n ≡ true → o ≡ some n
same_port-some none n h = absurd (cc)
same_port-some (some q) n h = ap some ((==_iff q n).0 h)

length-remove_le : (k : Text) (m : Map ℕ) → length (remove k m) ≤ length m
unfolding remove
length-remove_le k [] = omega arith
length-remove_le k ((j, n) ∷ m) = ground (arith, length-remove_le k m)

length-remove :
    (k : Text) (n : ℕ) (m : Map ℕ) → lookup k m ≡ some n → length (remove k m) < length m
unfolding lookup remove
length-remove k n [] h = absurd (cc)
length-remove k n ((j, w) ∷ m) h = ground (arith, length-remove_le k m, length-remove k n m)

lookup-included :
    (a b : Map ℕ) (k : Text) (n : ℕ)
    → included b a ≡ true
    → lookup k a ≡ some n
    → lookup k b ≡ some n
unfolding lookup
lookup-included [] b k n h e = absurd (cc)
lookup-included ((j, v) ∷ a) b k n h e =
    ground (arith, text_eq_iff j k, same_port-some (lookup j b) v, lookup-included a b k n)

included-remove :
    (j : Text) (a b : Map ℕ)
    → lookup j a ≡ none
    → included b a ≡ true
    → included (remove j b) a ≡ true
unfolding lookup
included-remove j [] b absent h = refl
included-remove j ((i, v) ∷ a) b absent h =
    ground (arith, text_eq_iff i j, text_eq_iff j i, lookup-remove j i b, included-remove j a b)

-- A map that lies within another that is not larger leaves no key of it out.
lookup-included-none :
    (a b : Map ℕ) (k : Text)
    → UniqueKeys a
    → length b ≤ length a
    → included b a ≡ true
    → lookup k a ≡ none
    → lookup k b ≡ none
unfolding lookup
lookup-included-none [] [] k u l h e = refl
lookup-included-none [] (x ∷ b) k u l h e = absurd (omega arith)
lookup-included-none ((j, v) ∷ a) b k u l h e = elim (Bool-cases (text_eq j k)) [
  | inl same ↦ absurd (ground (arith, same))
  | inr other ↦
      let here : lookup j b ≡ some v = ground (arith, same_port-some (lookup j b) v) in
      let smaller = length-remove j v b here in
      let rest : included b a ≡ true = ground arith in
      let absent : lookup k a ≡ none = rw other at e in
      sym (lookup-remove j k b other)
      ∙ lookup-included-none a (remove j b) k u.1 (omega arith) (included-remove j a b u.0 rest)
          absent
]

-- Maps that the source finds equal are found to hold the same.
lookup-ports_eq :
    (a b : Map ℕ) (k : Text) → UniqueKeys a → ports_eq a b ≡ true → lookup k a ≡ lookup k b
unfolding ports_eq
lookup-ports_eq a b k u h = same (lookup k a) refl
  where
    inside : included b a ≡ true
    inside = ground arith

    as_long : length a ≡ length b
    as_long = ground (arith, ==_iff (length a) (length b))

    same : (o : Option ℕ) → lookup k a ≡ o → lookup k a ≡ lookup k b
    same none e = e ∙ sym (lookup-included-none a b k u (omega (arith, as_long)) inside e)
    same (some n) e = e ∙ sym (lookup-included a b k n inside e)

publish-lookup :
    (a : Actor) (k : Text)
    → UniqueKeys a.proxy_state
    → lookup k (publish_proxy_state a).proxy_state ≡ lookup k (running_ports a.pm)
unfolding publish_proxy_state
publish-lookup a k u = elim (Bool-cases (ports_eq a.proxy_state (running_ports a.pm))) [
  | inl same ↦ rw same (lookup-ports_eq a.proxy_state (running_ports a.pm) k u same)
  | inr other ↦ rw other refl
]

publish-live :
    (a : Actor) (k : Text)
    → UniqueKeys a.proxy_state
    → Inv a
    → lookup k (publish_proxy_state a).proxy_state
      ≡ live_port k (publish_proxy_state a).pm.processes
unfolding running_ports
publish-live a k u g =
    publish-lookup a k u
    ∙ ports_of-live a.pm.processes k g.distinct
    ∙ ap (λ m. live_port k m.processes) (sym (publish-pm a))

-- At every moment of a run, once the actor has answered whether a process exited, the proxy's map
-- gives for each name exactly the port of the record under it whose leader has not exited, and
-- nothing for any other name, if the map published before has no key twice.
pub is_process_exited-publishes :
    (session : Text) (os : Os) (a a' : Actor) (target : Text) (reply : ℕ) (k : Text)
    → Reached session (some a)
    → UniqueKeys a.proxy_state
    → handle_command os (PmCommand.is_process_exited target reply) a ≡ some a'
    → lookup k a'.proxy_state ≡ live_port k a'.pm.processes
unfolding handle_command
is_process_exited-publishes session os a a' target reply k r u e =
    let g = Inv-exited os target a (Reached-Returns session (some a) r) in
    subst (λ x. lookup k x.proxy_state ≡ live_port k x.pm.processes)
      (some-injective (answer_exited os target reply a) a' e) (publish-live _ k u g)
