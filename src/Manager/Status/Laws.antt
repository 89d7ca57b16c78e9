-- ===== src/Manager/Status/Laws.antt =====
-- The ports that the manager gives to the proxy.
use agent_procs.Prelude.{
  ℕ, ◌≡◌, refl, sym, ◌∙◌, inl, inr, [], ◌∷◌, Option, none, some, Text, text_eq, text_eq_iff, subst,
  true, false, Bool-cases, Option-cases,
}
use agent_procs.Prelude.Maps.{Map, lookup}
use agent_procs.Manager.Types.{ManagedProcess, Life, running, exited, stopping, leader_alive}
use agent_procs.Manager.Status.{ports_of}
use agent_procs.Manager.Table.Laws.{Distinct}

-- A port is routed to while the leader of its process has not exited.
abbrev pub routed : Life → Option ℕ → Option ℕ
routed (running inc) port = port
routed (exited code why inc timer) port = none
routed (stopping none after_stop waiters) port = port
routed (stopping (some code) after_stop waiters) port = none

abbrev pub live : Option ManagedProcess → Option ℕ
live none = none
live (some p) = routed p.life p.port

-- The port under `k` that requests can be sent to, read off the record under `k`.
abbrev pub live_port : Text → Map ManagedProcess → Option ℕ
live_port k m = live (lookup k m)

routed-alive : (l : Life) (port : Option ℕ) → leader_alive l ≡ true → routed l port ≡ port
unfolding leader_alive
routed-alive (running inc) port h = refl
routed-alive (exited code why inc timer) port h = absurd (cc)
routed-alive (stopping none after_stop waiters) port h = refl
routed-alive (stopping (some code) after_stop waiters) port h = absurd (cc)

routed-dead : (l : Life) (port : Option ℕ) → leader_alive l ≡ false → routed l port ≡ none
unfolding leader_alive
routed-dead (running inc) port h = absurd (cc)
routed-dead (exited code why inc timer) port h = refl
routed-dead (stopping none after_stop waiters) port h = absurd (cc)
routed-dead (stopping (some code) after_stop waiters) port h = refl

-- A key that is not behind the head is found in the head or nowhere.
live-absent :
    (j k : Text) (m : Map ManagedProcess)
    → text_eq j k ≡ true
    → lookup j m ≡ none
    → live_port k m ≡ none
live-absent j k m same absent =
    let gone : lookup k m ≡ none =
      subst (λ i. lookup i m ≡ none) ((text_eq_iff j k).0 same) absent in
    rw gone refl

-- What is found under a name among the running ports is its live port.
pub ports_of-live :
    (m : Map ManagedProcess) (k : Text) → Distinct m → lookup k (ports_of m) ≡ live_port k m
unfolding lookup ports_of
ports_of-live [] k d = refl
ports_of-live ((j, p) ∷ m) k d =
    let ih = ports_of-live m k d.2 in
    elim (Bool-cases (leader_alive p.life)) [
      | inr dead ↦ elim (Bool-cases (text_eq j k)) [
        | inl same ↦
            rw (dead, same) (ih ∙ live-absent j k m same d.0 ∙ sym (routed-dead p.life p.port dead))
        | inr other ↦ rw (dead, other) ih
      ]
      | inl alive ↦ elim (Option-cases p.port) [
        | inl bare ↦ elim (Bool-cases (text_eq j k)) [
          | inl same ↦
              rw (alive, bare, same)
                (ih ∙ live-absent j k m same d.0 ∙ sym (routed-alive p.life none alive))
          | inr other ↦ rw (alive, bare, other) ih
        ]
        | inr (port, has) ↦ elim (Bool-cases (text_eq j k)) [
          | inl same ↦ rw (alive, has, same) (sym (routed-alive p.life (some port) alive))
          | inr other ↦ rw (alive, has, other) ih
        ]
      ]
    ]
