-- ===== src/Actor/Supersede.antt =====
-- A stop overrides a restart that is in flight.
use agent_procs.Prelude.{
  ℕ, ◌≡◌, refl, sym, ap, subst, ◌∙◌, List, [], ◌∷◌, ◌++◌, Option, none, some, Text, ==_refl, arith,
  if◌then◌else◌,
}
use mathlib.Core.Option.{some-injective}
use agent_procs.Prelude.Int.{ℤ}
use agent_procs.Prelude.Maps.{lookup}
use agent_procs.Manager.Os.{Os}
use agent_procs.Manager.Types.{ManagedProcess, stopping, AfterStop, park, Waiter}
use agent_procs.Manager.Table.{find, update, update_in}
use agent_procs.Manager.Table.Laws.{update_in-lookup, lookup-adjust_self, find_in-lookup}
use agent_procs.Actor.State.{Actor, StopAllBatch, publish_proxy_state, update_pm}
use agent_procs.Actor.Teardown.{
  finish_teardown, finish_found, settle, leave_batch, leave_found, parked,
}
use agent_procs.Actor.Commands.{join_stop, stop_found}

pub publish-pm : (a : Actor) → (publish_proxy_state a).pm ≡ a.pm
unfolding publish_proxy_state
publish-pm a = ground arith

-- The record under `name` is `p`, exited by hand with `code`.
abbrev pub Parks : Text → Option ℤ → ManagedProcess → Option Actor → Type 0
Parks name code p none = ⊥
Parks name code p (some b) = lookup name b.pm.processes ≡ some (parked code p)

leave-quiet :
    (name : Text) (b : Option StopAllBatch) (c : Actor)
    → b ≡ none
    → (leave_found name b c).pm ≡ c.pm
leave-quiet name none c q = refl
leave-quiet name (some b) c q = absurd (cc)

settle-park :
    (os : Os) (name : Text) (code : Option ℤ) (leader_exit : Option (Option ℤ)) (ws : List Waiter)
    (a : Actor) (p : ManagedProcess)
    → a.stop_all ≡ none
    → lookup name a.pm.processes ≡ some p
    → Parks name code p (settle os name code (stopping leader_exit park ws) a)
unfolding settle leave_batch update
settle-park os name code leader_exit ws a p quiet e =
    ap (λ m. lookup name m.processes) (publish-pm _)
    ∙ ap (λ m. lookup name m.processes) (leave-quiet name a.stop_all _ quiet)
    ∙ ap (lookup name) (update_in-lookup name (parked code) a.pm.processes p e)
    ∙ lookup-adjust_self name (parked code) a.pm.processes p e

joined-Parks :
    (os : Os) (name : Text) (reply : ℕ) (code : Option ℤ) (a : Actor) (p : ManagedProcess)
    (leader_exit : Option (Option ℤ)) (after_stop : AfterStop) (ws : List Waiter)
    → a.stop_all ≡ none
    → lookup name a.pm.processes ≡ some p
    → p.life ≡ stopping leader_exit after_stop ws
    → Parks name code p (
        finish_teardown os name p.generation code
          (update_pm name (λ q. record q { life = join_stop reply q.life }) a))
unfolding finish_teardown find update
joined-Parks os name reply code a p leader_exit after_stop ws quiet e l =
    let f : ManagedProcess → ManagedProcess = λ q. record q { life = join_stop reply q.life } in
    let m = a.pm.processes in
    let there : lookup name (update_in name f m) ≡ some (f p) =
      ap (lookup name) (update_in-lookup name f m p e) ∙ lookup-adjust_self name f m p e in
    let b = update_pm name f a in
    let settled : Parks name code (f p) (settle os name code (f p).life b) =
      subst (λ life. Parks name code (f p) (settle os name code (join_stop reply life) b)) (sym l)
        (settle-park os name code leader_exit (ws ++ Waiter.stop reply ∷ []) b (f p) quiet there) in
    subst (λ o. Parks name code p (finish_found os name p.generation code o b))
      (sym (find_in-lookup name (update_in name f m) (f p) there))
      (subst (λ t. Parks name code p (if t then settle os name code (f p).life b else some b))
        (sym (==_refl p.generation)) settled)

-- While no stop-all runs, a stop of a process that is stopping, for a restart or not, parks it: once
-- the teardown in flight is finished, its record is the one from before, with its old generation,
-- exited by hand with the reported code.
pub stop_found-Parks :
    (os : Os) (name : Text) (reply : ℕ) (code : Option ℤ) (a b : Actor) (p : ManagedProcess)
    (leader_exit : Option (Option ℤ)) (after_stop : AfterStop) (ws : List Waiter)
    → a.stop_all ≡ none
    → lookup name a.pm.processes ≡ some p
    → p.life ≡ stopping leader_exit after_stop ws
    → stop_found name reply p p.life a ≡ some b
    → Parks name code p (finish_teardown os name p.generation code b)
stop_found-Parks os name reply code a b p leader_exit after_stop ws quiet e l done =
    let joined = update_pm name (λ q. record q { life = join_stop reply q.life }) a in
    let same : joined ≡ b =
      some-injective joined b (subst (λ life. stop_found name reply p life a ≡ some b) l done) in
    subst (λ c. Parks name code p (finish_teardown os name p.generation code c)) same
      (joined-Parks os name reply code a p leader_exit after_stop ws quiet e l)
