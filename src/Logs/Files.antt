-- ===== src/Logs/Files.antt =====
-- The files of the log directory, by path. I/O errors other than a missing file do not occur.
use agent_procs.Prelude.{ℕ, ◌++◌, List, Text, bytes, decimal}
use agent_procs.Prelude.Maps.{Map}

abbrev pub Files : Type 0
Files = Map (List ℕ)

-- `idx_path_for` of src/daemon/log_index.rs.
abbrev pub idx_path_for : Text → Text
idx_path_for path = path ++ bytes ".idx"

-- `path.with_extension(format!("{}.{}", ext, n))`, where `ext` is the extension of `path`.
abbrev pub rotated_path : Text → ℕ → Text
rotated_path path n = path ++ bytes "." ++ decimal n
