-- ===== src/Logs/Entries.antt =====
-- A log file and its index that agree.
use agent_procs.Prelude.{ℕ, ◌+◌, ◌^◌, ◌<◌, ◌≡◌, refl, List, [], ◌∷◌, some, Text, length, All, arith}
use agent_procs.Prelude.Maps.{lookup}
use agent_procs.Logs.Files.{Files}
use agent_procs.Logs.Index.{IndexRecord, create}
use agent_procs.Logs.IndexLaws.{Fits, written}
use agent_procs.Logs.Lines.{unlines, OneLine}

-- The index records of lines that start at a byte offset, with their sequence numbers.
abbrev pub entries : ℕ → List Text → List ℕ → List IndexRecord
entries offset [] ss = []
entries offset (l ∷ ls) [] = []
entries offset (l ∷ ls) (s ∷ ss) =
    record { byte_offset = offset; seq = s } ∷ entries (offset + length l + 1) ls ss

-- The files of a segment hold these lines, with these sequence numbers, and the index has `base`.
pub record Holds (files : Files) (log_path idx_path : Text) (base : ℕ) (ls : List Text)
    (ss : List ℕ) : Type 0 where
  pub log : lookup log_path files ≡ some (unlines ls)
  pub index : lookup idx_path files ≡ some (written (create base) (entries 0 ls ss))
  pub paired : length ss ≡ length ls
  pub small_base : base < 2 ^ 64
  pub fits : All Fits (entries 0 ls ss)
  pub one_line : All OneLine ls

pub length-entries :
    (offset : ℕ) (ls : List Text) (ss : List ℕ)
    → length ss ≡ length ls
    → length (entries offset ls ss) ≡ length ls
length-entries offset [] ss e = refl
length-entries offset (l ∷ ls) [] e = absurd (omega (arith, e))
length-entries offset (l ∷ ls) (s ∷ ss) e =
    omega (arith, length-entries (offset + length l + 1) ls ss (omega (arith, e)))
