-- ===== src/Actor/Sound/Tasks.antt =====
-- Taking a finished teardown task off the list of those in flight.
use agent_procs.Prelude.{ℕ, ◌≡◌, ◌≢◌, refl, List, [], ◌∷◌, ◌++◌, Text, arith, All, ◌≤◌, ◌<◌}
use agent_procs.Manager.Types.{Life, running, exited, stopping}
use agent_procs.Actor.Sound.{names_at, due}

names_at-append :
    (g : ℕ) (xs ys : List (Text × ℕ)) → names_at g (xs ++ ys) ≡ names_at g xs ++ names_at g ys
names_at-append g [] ys = refl
names_at-append g ((n, h) ∷ xs) ys = ground (arith, names_at-append g xs ys)

-- A task of another generation is not counted.
pub names_at_removed :
    (h g : ℕ) (name : Text) (xs ys : List (Text × ℕ))
    → h ≢ g
    → names_at h (xs ++ ys) ≡ names_at h (xs ++ (name, g) ∷ ys)
names_at_removed h g name [] ys d = ground arith
names_at_removed h g name ((n, i) ∷ xs) ys d = ground (arith, names_at_removed h g name xs ys d)

pub names_at_held :
    (g : ℕ) (name : Text) (xs ys : List (Text × ℕ)) → names_at g (xs ++ (name, g) ∷ ys) ≢ []
names_at_held g name [] ys = ground arith
names_at_held g name ((n, i) ∷ xs) ys = ground (arith, names_at_held g name xs ys)

-- The one task of a generation bears the record's name, and no other is left.
pub names_at_single :
    (g : ℕ) (name k : Text) (xs ys : List (Text × ℕ))
    → names_at g (xs ++ (name, g) ∷ ys) ≡ k ∷ []
    → (name ≡ k) × (names_at g (xs ++ ys) ≡ [])
names_at_single g name k [] ys e = ground arith
names_at_single g name k ((n, i) ∷ xs) ys e =
    ground (arith, names_at_single g name k xs ys, names_at_held g name xs ys)

-- A record whose generation has a task in flight is stopping, and the task is its own.
pub due_held :
    (g : ℕ) (name k : Text) (life : Life) (xs ys : List (Text × ℕ))
    → names_at g (xs ++ (name, g) ∷ ys) ≡ due life k
    → (due life k ≡ k ∷ []) × (name ≡ k) × (names_at g (xs ++ ys) ≡ [])
due_held g name k (running inc) xs ys e = absurd (names_at_held g name xs ys e)
due_held g name k (exited code why inc timer) xs ys e = absurd (names_at_held g name xs ys e)
due_held g name k (stopping leader_exit after_stop ws) xs ys e =
    let (own, rest) = names_at_single g name k xs ys e in (refl, own, rest)

pub names_at_fresh :
    (n g : ℕ) (ts : List (Text × ℕ)) → All (λ t. t.1 ≤ n) ts → n < g → names_at g ts ≡ []
names_at_fresh n g [] b h = refl
names_at_fresh n g ((k, i) ∷ ts) b h = ground (arith, names_at_fresh n g ts b.1)

pub All-removed :
    (n g : ℕ) (name : Text) (xs ys : List (Text × ℕ))
    → All (λ t. t.1 ≤ n) (xs ++ (name, g) ∷ ys)
    → All (λ t. t.1 ≤ n) (xs ++ ys)
All-removed n g name [] ys b = b.1
All-removed n g name ((k, i) ∷ xs) ys b = (b.0, All-removed n g name xs ys b.1)
