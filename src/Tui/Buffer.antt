-- ===== src/Tui/Buffer.antt =====
-- src/tui/app.rs: `OutputBuffer`, which counts its lines by source.
use agent_procs.Prelude.{
  ℕ, ◌+◌, ◌-◌, ◌≤◌, ◌<◌, ◌≡◌, refl, Bool, true, false, List, [], ◌∷◌, ◌++◌, map, Text, ◌==◌, ==_iff,
  arith, if◌then◌else◌, length, length-append, select,
}

pub data LineSource : Type 0 where
  stdout stderr : LineSource

pub data StreamMode : Type 0 where
  stdout stderr both : StreamMode

pub record OutputBuffer : Type 0 where
  pub lines : List (LineSource × Text)
  pub max_lines : ℕ
  pub stdout_count : ℕ
  pub stderr_count : ℕ

unfoldable pub new_buffer : ℕ → OutputBuffer
new_buffer max_lines = record {
  lines = [];
  max_lines = max_lines;
  stdout_count = 0;
  stderr_count = 0;
}

abbrev pub is_stdout : LineSource → Bool
is_stdout stdout = true
is_stdout stderr = false

abbrev pub is_stderr : LineSource → Bool
is_stderr stdout = false
is_stderr stderr = true

abbrev count_down : LineSource → OutputBuffer → OutputBuffer
count_down stdout b = record b { stdout_count = b.stdout_count - 1 }
count_down stderr b = record b { stderr_count = b.stderr_count - 1 }

abbrev count_up : LineSource → OutputBuffer → OutputBuffer
count_up stdout b = record b { stdout_count = b.stdout_count + 1 }
count_up stderr b = record b { stderr_count = b.stderr_count + 1 }

-- `pop_front`, and the count of the evicted line's source.
abbrev evict_from : List (LineSource × Text) → OutputBuffer → OutputBuffer
evict_from [] b = b
evict_from ((s, t) ∷ rest) b = count_down s (record b { lines = rest })

abbrev make_room : Bool → OutputBuffer → OutputBuffer
make_room true b = evict_from b.lines b
make_room false b = b

abbrev push_back : LineSource → Text → OutputBuffer → OutputBuffer
push_back source line b = record b { lines = b.lines ++ (source, line) ∷ [] }

unfoldable pub push : LineSource → Text → OutputBuffer → OutputBuffer
push source line b =
    push_back source line (count_up source (make_room (length b.lines == b.max_lines) b))

unfoldable pub stdout_lines : OutputBuffer → List Text
stdout_lines b = map (λ e. e.1) (select (λ e. is_stdout e.0) b.lines)

unfoldable pub stderr_lines : OutputBuffer → List Text
stderr_lines b = map (λ e. e.1) (select (λ e. is_stderr e.0) b.lines)

-- The counts are those of the lines, and the lines are at most the maximum.
abbrev pub Counted : OutputBuffer → Type 0
Counted b =
    (b.stdout_count ≡ length (stdout_lines b))
    × (b.stderr_count ≡ length (stderr_lines b))
    × (length b.lines ≤ b.max_lines)

lines_counted :
    (p : LineSource → Bool) (xs : List (LineSource × Text)) (s : LineSource) (t : Text)
    → length (map (λ e. e.1) (select (λ e. p e.0) (xs ++ (s, t) ∷ [])))
      ≡ length (map (λ e. e.1) (select (λ e. p e.0) xs)) + (if p s then 1 else 0)
lines_counted p [] s t = ground arith
lines_counted p ((r, u) ∷ xs) s t = ground (arith, lines_counted p xs s t)

abbrev texts_of : (LineSource → Bool) → OutputBuffer → List Text
texts_of p b = map (λ e. e.1) (select (λ e. p e.0) b.lines)

abbrev Roomy : OutputBuffer → Type 0
Roomy b =
    (b.stdout_count ≡ length (texts_of is_stdout b))
    × (b.stderr_count ≡ length (texts_of is_stderr b))
    × (length b.lines < b.max_lines)

evict-Roomy :
    (lines : List (LineSource × Text)) (max out err : ℕ)
    → 0 < max
    → length lines ≡ max
    → out ≡ length (map (λ e. e.1) (select (λ e. is_stdout e.0) lines))
    → err ≡ length (map (λ e. e.1) (select (λ e. is_stderr e.0) lines))
    → Roomy (
        evict_from lines
          (record { lines = lines; max_lines = max; stdout_count = out; stderr_count = err }))
evict-Roomy [] max out err h e o r = absurd (omega (arith, h, e))
evict-Roomy ((stdout, t) ∷ rest) max out err h e o r = (omega (arith, o), r, omega (arith, e))
evict-Roomy ((stderr, t) ∷ rest) max out err h e o r = (o, omega (arith, r), omega (arith, e))

push_back-Counted :
    (source : LineSource) (line : Text) (b : OutputBuffer)
    → Roomy b
    → Counted (push_back source line (count_up source b))
unfolding stdout_lines stderr_lines
push_back-Counted stdout line b (o, r, h) = (
  omega (arith, o, lines_counted is_stdout b.lines stdout line),
  omega (arith, r, lines_counted is_stderr b.lines stdout line),
  omega (arith, h, length-append b.lines ((stdout, line) ∷ [])),
)
push_back-Counted stderr line b (o, r, h) = (
  omega (arith, o, lines_counted is_stdout b.lines stderr line),
  omega (arith, r, lines_counted is_stderr b.lines stderr line),
  omega (arith, h, length-append b.lines ((stderr, line) ∷ [])),
)

make_room-Roomy :
    (full : Bool) (b : OutputBuffer)
    → (length b.lines == b.max_lines) ≡ full
    → 0 < b.max_lines
    → Counted b
    → Roomy (make_room full b)
unfolding stdout_lines stderr_lines
make_room-Roomy true b e h c =
    evict-Roomy b.lines b.max_lines b.stdout_count b.stderr_count h
      ((==_iff (length b.lines) b.max_lines).0 e) c.0 c.1
make_room-Roomy false b e h c =
    (c.0, c.1, ground (arith, ==_iff (length b.lines) b.max_lines, e, c.2))

-- A push keeps the counts those of the lines of each source, and the lines within the maximum, if
-- the maximum is not zero.
pub push-Counted :
    (source : LineSource) (line : Text) (b : OutputBuffer)
    → 0 < b.max_lines
    → Counted b
    → Counted (push source line b)
unfolding push
push-Counted source line b h c = push_back-Counted source line _ (make_room-Roomy _ b refl h c)
