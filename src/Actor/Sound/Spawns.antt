-- ===== src/Actor/Sound/Spawns.antt =====
-- New incarnations: spawning and respawning keep the invariant while the generations last.
use agent_procs.Actor.Commands.{is_due}
use agent_procs.Manager.Names.{has_path_parts, is_valid_dns_label}
use agent_procs.Ports.{PortAllocator}
use agent_procs.Prelude.{
  ℕ, ◌+◌, ◌%◌, ◌^◌, ◌≤◌, ◌<◌, ◌≡◌, ◌≢◌, refl, sym, subst, ◌⊎◌, inl, inr, false, List, [], Option,
  none, some, Text, arith, Option-cases, Bool-cases, All, All-map, ◌&&◌, not, text_eq_refl,
}
use agent_procs.Prelude.Maps.{Map, lookup, insert, lookup-insert}
use agent_procs.Manager.Os.{Os}
use agent_procs.Protocol.{Response}
use agent_procs.Manager.Types.{ManagedProcess, ProcessManager, bump_generation, Incarnation}
use agent_procs.Manager.Spawn.{
  respawn, respawn_found, spawn_process, admit_process, resolve_port, respawned, not_respawned,
  fresh_process, respawn_with, admit_with, spawn_resolved, spawn_named,
}
use agent_procs.Manager.Table.Laws.{
  Entries, Avoids, Entries-lookup, Entries-set, Entries-map, Entries-insert, Distinct-adjust,
  Distinct-insert, insert-eq-adjust,
}
use agent_procs.Actor.State.{StopAllBatch}
use agent_procs.Actor.Sound.{Sound, Good, names_at}
use agent_procs.Actor.Sound.Tasks.{names_at_fresh}
use agent_procs.Actor.Sound.Stops.{InBudget-idle}

Sound-later :
    (n n' : ℕ) (ts : List (Text × ℕ)) (b : Option StopAllBatch) (k : Text) (p : ManagedProcess)
    → n ≤ n'
    → Sound n ts b k p
    → Sound n' ts b k p
Sound-later n n' ts b k p h s = record {
  named = s.named;
  issued = omega (arith, s.issued);
  tracked = s.tracked;
  covered = s.covered;
  in_budget = s.in_budget;
}

Avoids-fresh :
    (n g : ℕ) (ts : List (Text × ℕ)) (b : Option StopAllBatch) (m : Map ManagedProcess)
    → n < g
    → Entries (Sound n ts b) m
    → Avoids g m
Avoids-fresh n g ts b m h =
    Entries-map (Sound n ts b) (λ k p. p.generation ≢ g) m (λ k p s e. omega (arith, s.issued))

module _ (n n' : ℕ) (ts : List (Text × ℕ)) (b : Option StopAllBatch) (k : Text) (v : ManagedProcess)
    (m : Map ManagedProcess) (later : n ≤ n') (good : Good n ts b m) (new : Sound n' ts b k v) where
  aged : Entries (Sound n' ts b) m
  aged =
      Entries-map (Sound n ts b) (Sound n' ts b) m (λ j q s. Sound-later n n' ts b j q later s)
        good.sound

  aged_tasks : All (λ t. t.1 ≤ n') ts
  aged_tasks = All-map (λ t. t.1 ≤ n) (λ t. t.1 ≤ n') ts (λ t h. omega (arith, h)) good.bounded

  -- The record under `k` is replaced.
  pub Good-replaced :
      (p : ManagedProcess)
      → lookup k m ≡ some p
      → (v.generation ≡ p.generation) ⊎ Avoids v.generation m
      → Good n' ts b (insert k v m)
  Good-replaced p e gen = rw (insert-eq-adjust k v m p e) (record {
    distinct = Distinct-adjust k (λ q. v) m p good.distinct e gen;
    sound = Entries-set (Sound n' ts b) k (λ q. v) m p aged e new;
    bounded = aged_tasks;
  })

  -- A record is added under the free name `k`.
  pub Good-added : lookup k m ≡ none → Avoids v.generation m → Good n' ts b (insert k v m)
  Good-added e gen = record {
    distinct = Distinct-insert k v m good.distinct e gen;
    sound = Entries-insert (Sound n' ts b) k v m aged new;
    bounded = aged_tasks;
  }

next_lem : (n : ℕ) → n + 1 < 2 ^ 64 → (n + 1) % 2 ^ 64 ≡ n + 1
next_lem n h = omega arith

abbrev pub GoodManager : List (Text × ℕ) → ProcessManager → Type 0
GoodManager ts m = Good m.next_generation ts none m.processes

module _ (ts : List (Text × ℕ)) (os : Os) where
  GoodManager-respawn_with :
      (m m' : ProcessManager) (name id : Text) (p : ManagedProcess)
      (spawned : Text ⊎ (Incarnation × ℕ))
      → m'.processes ≡ m.processes
      → m'.next_generation ≡ m.next_generation + 1
      → GoodManager ts m
      → lookup name m.processes ≡ some p
      → names_at p.generation ts ≡ []
      → GoodManager ts (respawn_with os m' name id p spawned).1
  GoodManager-respawn_with m m' name id p (inr (inc, pid)) same next g e idle =
      let s = Entries-lookup (Sound m.next_generation ts none) name m.processes p g.sound e in
      subst
        (λ x.
          Good m'.next_generation ts none
            (insert name (respawned os id m'.next_generation (inc, pid) p) x))
        (sym same)
        (Good-replaced m.next_generation m'.next_generation ts none name _ m.processes
          (omega (arith, next)) g
          (record {
            named = s.named;
            issued = omega arith;
            tracked =
                names_at_fresh m.next_generation m'.next_generation ts g.bounded
                  (omega (arith, next));
            covered = tt;
            in_budget = InBudget-idle p.restart_policy p.restart_count p.life _ s.in_budget refl;
          })
          p e
          (inr (
            Avoids-fresh m.next_generation m'.next_generation ts none m.processes
              (omega (arith, next)) g.sound)))
  GoodManager-respawn_with m m' name id p (inl message) same next g e idle =
      let s = Entries-lookup (Sound m.next_generation ts none) name m.processes p g.sound e in
      subst (λ x. Good m'.next_generation ts none (insert name (not_respawned p) x)) (sym same)
        (Good-replaced m.next_generation m'.next_generation ts none name _ m.processes
          (omega (arith, next)) g
          (record {
            named = s.named;
            issued = omega (arith, next, s.issued);
            tracked = idle;
            covered = tt;
            in_budget = InBudget-idle p.restart_policy p.restart_count p.life _ s.in_budget refl;
          })
          p e (inl refl))

  pub GoodManager-respawn :
      (m : ProcessManager) (name : Text) (p : ManagedProcess)
      → m.next_generation + 1 < 2 ^ 64
      → GoodManager ts m
      → lookup name m.processes ≡ some p
      → names_at p.generation ts ≡ []
      → GoodManager ts (respawn os m name).1
  unfolding respawn respawn_found
  GoodManager-respawn m name p room g e idle =
      rw (e, respawn)
        (GoodManager-respawn_with m _ name _ p _ refl (next_lem m.next_generation room) g e idle)

  GoodManager-admit_with :
      (m : ProcessManager) (id name command : Text) (cwd : Option Text) (env : Option (Map Text))
      (port : Option ℕ) (spawned : Text ⊎ (Incarnation × ℕ))
      → m.next_generation + 1 < 2 ^ 64
      → GoodManager ts m
      → lookup name m.processes ≡ none
      → GoodManager ts (admit_with os m id name command cwd env port spawned).1
  unfolding bump_generation
  GoodManager-admit_with m id name command cwd env port (inl message) room g e = g
  GoodManager-admit_with m id name command cwd env port (inr (inc, pid)) room g e =
      let next = next_lem m.next_generation room in
      Good-added m.next_generation ((m.next_generation + 1) % 2 ^ 64) ts none name _ m.processes
        (omega (arith, next)) g
        (record {
          named = refl;
          issued = omega arith;
          tracked = names_at_fresh m.next_generation _ ts g.bounded (omega (arith, next));
          covered = tt;
          in_budget = tt;
        })
        e (Avoids-fresh m.next_generation _ ts none m.processes (omega (arith, next)) g.sound)

  GoodManager-admit_process :
      (m : ProcessManager) (id name command : Text) (cwd : Option Text) (env : Option (Map Text))
      (port : Option ℕ)
      → m.next_generation + 1 < 2 ^ 64
      → GoodManager ts m
      → GoodManager ts (admit_process os m id name command cwd env port).1
  unfolding admit_process
  GoodManager-admit_process m id name command cwd env port room g =
      elim (Option-cases (lookup name m.processes)) [
        | inl e ↦
            rw (e, admit_process) (GoodManager-admit_with m id name command cwd env port _ room g e)
        | inr (p, e) ↦ rw (e, admit_process) g
      ]

  GoodManager-spawn_resolved :
      (m : ProcessManager) (id name command : Text) (cwd : Option Text) (env : Option (Map Text))
      (r : (Text ⊎ Option ℕ) × PortAllocator)
      → m.next_generation + 1 < 2 ^ 64
      → GoodManager ts m
      → GoodManager ts (spawn_resolved os m id name command cwd env r).1
  GoodManager-spawn_resolved m id name command cwd env (inl e, a) room g = g
  GoodManager-spawn_resolved m id name command cwd env (inr port, a) room g =
      GoodManager-admit_process (record m { port_allocator = a }) id name command cwd env port room
        g

  GoodManager-spawn_named :
      (m : ProcessManager) (id name command : Text) (cwd : Option Text) (env : Option (Map Text))
      (port : Option ℕ)
      → m.next_generation + 1 < 2 ^ 64
      → GoodManager ts m
      → GoodManager ts (spawn_named os m id name command cwd env port).1
  unfolding spawn_named
  GoodManager-spawn_named m id name command cwd env port room g =
      elim (Bool-cases (has_path_parts name)) [
        | inl bad ↦ rw (bad, spawn_named) g
        | inr fine ↦
            elim (Bool-cases (m.port_allocator.proxy_enabled && not (is_valid_dns_label name))) [
              | inl bad ↦ rw (fine, bad, spawn_named) g
              | inr good ↦
                  rw (fine, good, spawn_named)
                    (GoodManager-spawn_resolved m id name command cwd env (resolve_port os m port)
                      room g)
            ]
      ]

  pub GoodManager-spawn :
      (m : ProcessManager) (command : Text) (given cwd : Option Text) (env : Option (Map Text))
      (port : Option ℕ)
      → m.next_generation + 1 < 2 ^ 64
      → GoodManager ts m
      → GoodManager ts (spawn_process os m command given cwd env port).1
  unfolding spawn_process
  GoodManager-spawn m command given cwd env port room g =
      GoodManager-spawn_named _ _ _ command cwd env port room g

-- A successful answer names a running record that was never restarted.
abbrev pub Spawned : Response × ProcessManager → Type 0
Spawned (Response.run_ok name id pid port url, m) =
    (p : ManagedProcess) × (lookup name m.processes ≡ some p)
    × (p.restart_count ≡ 0)
    × (is_due p.life ≡ false)
Spawned _ = Unit {0}

module _ (os : Os) where
  Spawned-admit_with :
      (m : ProcessManager) (id name command : Text) (cwd : Option Text) (env : Option (Map Text))
      (port : Option ℕ) (spawned : Text ⊎ (Incarnation × ℕ))
      → Spawned (admit_with os m id name command cwd env port spawned)
  Spawned-admit_with m id name command cwd env port (inl message) = tt
  Spawned-admit_with m id name command cwd env port (inr (inc, pid)) = (
    fresh_process os name id command cwd env port (bump_generation m).next_generation (inc, pid),
    simp (lookup-insert, text_eq_refl),
    refl,
    refl,
  )

  Spawned-admit_process :
      (m : ProcessManager) (id name command : Text) (cwd : Option Text) (env : Option (Map Text))
      (port : Option ℕ)
      → Spawned (admit_process os m id name command cwd env port)
  unfolding admit_process
  Spawned-admit_process m id name command cwd env port =
      elim (Option-cases (lookup name m.processes)) [
        | inl e ↦ rw (e, admit_process) (Spawned-admit_with m id name command cwd env port _)
        | inr (p, e) ↦ rw (e, admit_process) tt
      ]

  Spawned-resolved :
      (m : ProcessManager) (id name command : Text) (cwd : Option Text) (env : Option (Map Text))
      (r : (Text ⊎ Option ℕ) × PortAllocator)
      → Spawned (spawn_resolved os m id name command cwd env r)
  Spawned-resolved m id name command cwd env (inl e, a) = tt
  Spawned-resolved m id name command cwd env (inr port, a) =
      Spawned-admit_process (record m { port_allocator = a }) id name command cwd env port

  Spawned-named :
      (m : ProcessManager) (id name command : Text) (cwd : Option Text) (env : Option (Map Text))
      (port : Option ℕ)
      → Spawned (spawn_named os m id name command cwd env port)
  unfolding spawn_named
  Spawned-named m id name command cwd env port = elim (Bool-cases (has_path_parts name)) [
    | inl bad ↦ rw (bad, spawn_named) tt
    | inr fine ↦
        elim (Bool-cases (m.port_allocator.proxy_enabled && not (is_valid_dns_label name))) [
          | inl bad ↦ rw (fine, bad, spawn_named) tt
          | inr good ↦
              rw (fine, good, spawn_named)
                (Spawned-resolved m id name command cwd env (resolve_port os m port))
        ]
  ]

  pub Spawned-spawn :
      (m : ProcessManager) (command : Text) (given cwd : Option Text) (env : Option (Map Text))
      (port : Option ℕ)
      → Spawned (spawn_process os m command given cwd env port)
  unfolding spawn_process
  Spawned-spawn m command given cwd env port = Spawned-named _ _ _ command cwd env port
