-- ===== src/Logs/Lines.antt =====
-- Lines of a file, as the standard library's buffered reader cuts them. A newline is the byte 10.
use agent_procs.Prelude.{
  ℕ, zero, suc, ◌≤◌, ◌≡◌, refl, ap, ◌∙◌, true, not, List, [], ◌∷◌, ◌++◌, Text, ◌==◌, if◌then◌else◌,
  every, length, take, arith, All,
}

abbrev pub newline : ℕ
newline = 10

-- The contents of a file of which every line is ended.
unfoldable pub unlines : List Text → List ℕ
unlines [] = []
unlines (l ∷ ls) = l ++ newline ∷ unlines ls

-- `read_line`, with its newline taken off: the line, and what follows.
unfoldable pub next_line : List ℕ → Text × List ℕ
next_line [] = ([], [])
next_line (c ∷ s) = let (l, r) = next_line s in if c == newline then ([], s) else (c ∷ l, r)

unfoldable pub read_n : ℕ → List ℕ → List Text
unfolding next_line
read_n zero s = []
read_n (suc n) s = (next_line s).0 ∷ read_n n (next_line s).1

-- `BufRead::lines`: a carriage return before the newline is taken off too.
abbrev pub strip_cr : Text → Text
strip_cr [] = []
strip_cr (c ∷ []) = if c == 13 then [] else c ∷ []
strip_cr (c ∷ d ∷ s) = c ∷ strip_cr (d ∷ s)

unfoldable pub pieces : List ℕ → Text × List Text
pieces [] = ([], [])
pieces (c ∷ s) =
    let (first, rest) = pieces s in if c == newline then ([], first ∷ rest) else (c ∷ first, rest)

abbrev pub ended : Text → List Text → List Text
ended [] [] = []
ended (c ∷ x) [] = (c ∷ x) ∷ []
ended x (y ∷ ys) = strip_cr x ∷ ended y ys

unfoldable pub buf_lines : List ℕ → List Text
unfolding pieces
buf_lines s = ended (pieces s).0 (pieces s).1

-- A text that `lines` gives: no newline inside, and no carriage return at the end.
abbrev pub OneLine : Text → Type 0
OneLine l = every (λ c. not (c == newline)) l ≡ true

abbrev pub Stripped : Text → Type 0
Stripped l = strip_cr l ≡ l

next_line-unlines : (l : Text) (s : List ℕ) → OneLine l → next_line (l ++ newline ∷ s) ≡ (l, s)
unfolding next_line
next_line-unlines [] s h = refl
next_line-unlines (c ∷ l) s h = ground (arith, next_line-unlines l s)

pub read_n-unlines :
    (n : ℕ) (ls : List Text) → All OneLine ls → n ≤ length ls → read_n n (unlines ls) ≡ take n ls
unfolding read_n unlines
read_n-unlines zero ls o h = refl
read_n-unlines (suc n) [] o h = absurd (omega (arith, h))
read_n-unlines (suc n) (l ∷ ls) o h =
    let cut = next_line-unlines l (unlines ls) o.0 in
    ap (λ p. p.0 ∷ read_n n p.1) cut ∙ ap (◌∷◌ l) (read_n-unlines n ls o.1 (omega (arith, h)))

pieces-unlines :
    (l : Text) (s : List ℕ)
    → OneLine l
    → pieces (l ++ newline ∷ s) ≡ (l, (pieces s).0 ∷ (pieces s).1)
unfolding pieces
pieces-unlines [] s h = refl
pieces-unlines (c ∷ l) s h = ground (arith, pieces-unlines l s)

pub buf_lines-unlines :
    (ls : List Text) → All OneLine ls → All Stripped ls → buf_lines (unlines ls) ≡ ls
unfolding buf_lines unlines
buf_lines-unlines [] o c = refl
buf_lines-unlines (l ∷ ls) o c =
    ap (λ p. ended p.0 p.1) (pieces-unlines l (unlines ls) o.0)
    ∙ ap (λ x. x ∷ buf_lines (unlines ls)) c.0
    ∙ ap (◌∷◌ l) (buf_lines-unlines ls o.1 c.1)
