-- ===== src/Manager/Names.antt =====
-- Which names a process may have.
use agent_procs.Prelude.{
  ℕ, Bool, true, false, ◌&&◌, ◌||◌, [], ◌∷◌, Text, bytes, contains, leb, ltb, ◌==◌, if◌then◌else◌,
  every, length,
}

abbrev pub is_label_char : ℕ → Bool
is_label_char c = (leb b'a' c && leb c b'z') || (leb b'0' c && leb c b'9') || c == b'-'

abbrev pub ends_with_hyphen : Text → Bool
ends_with_hyphen [] = false
ends_with_hyphen (c ∷ []) = c == b'-'
ends_with_hyphen (c ∷ d ∷ s) = ends_with_hyphen (d ∷ s)

abbrev pub starts_with_hyphen : Text → Bool
starts_with_hyphen [] = false
starts_with_hyphen (c ∷ s) = c == b'-'

abbrev pub is_empty : Text → Bool
is_empty [] = true
is_empty (c ∷ s) = false

unfoldable pub is_valid_dns_label : Text → Bool
is_valid_dns_label name =
    if is_empty name || ltb 63 (length name)
    then false
    else if starts_with_hyphen name || ends_with_hyphen name
    then false
    else every is_label_char name

-- The names that `spawn_process` refuses, since log paths are built from them.
unfoldable pub has_path_parts : Text → Bool
has_path_parts name =
    contains name (bytes "/")
    || contains name (b'\\' ∷ [])
    || contains name (bytes "..")
    || contains name (0 ∷ [])
