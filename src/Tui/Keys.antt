-- ===== src/Tui/Keys.antt =====
-- src/tui/input.rs: what a key means. The key codes are those of crossterm that the source names.
use agent_procs.Prelude.{
  ℕ, ◌+◌, ◌/◌, ◌%◌, ◌<◌, ◌≡◌, refl, Bool, true, false, ◌&&◌, [], ◌∷◌, ◌++◌, Text, leb, ltb, ◌==◌,
  if◌then◌else◌, ap, Bool-cases, inl, inr, arith, ◌≤◌,
}

pub data KeyCode : Type 0 where
  down up page_down page_up home end_key esc enter backspace other : KeyCode
  char : ℕ → KeyCode

pub record KeyEvent : Type 0 where
  pub code : KeyCode
  pub control : Bool

pub data Action : Type 0 where
  select_next select_prev restart stop stop_all cycle_stream toggle_pause scroll_up : Action
  scroll_down scroll_to_top scroll_to_bottom start_filter clear_filter quit : Action
  quit_and_stop nothing : Action

pub data FilterAction : Type 0 where
  char : ℕ → FilterAction
  backspace confirm cancel : FilterAction

abbrev char_action : ℕ → Bool → Action
char_action c control =
    if c == b'j'
    then select_next
    else if c == b'k'
    then select_prev
    else if c == b'r'
    then restart
    else if c == b'x'
    then stop
    else if c == b'X'
    then stop_all
    else if c == b'e'
    then cycle_stream
    else if c == b' '
    then toggle_pause
    else if c == b'u'
    then scroll_up
    else if c == b'd'
    then scroll_down
    else if c == b'g'
    then scroll_to_top
    else if c == b'G'
    then scroll_to_bottom
    else if c == b'/'
    then start_filter
    else if c == b'q'
    then quit
    else if c == b'Q'
    then quit_and_stop
    else if (c == b'c') && control
    then quit
    else nothing

abbrev code_action : KeyCode → Bool → Action
code_action down control = select_next
code_action up control = select_prev
code_action page_up control = scroll_up
code_action page_down control = scroll_down
code_action home control = scroll_to_top
code_action end_key control = scroll_to_bottom
code_action esc control = clear_filter
code_action (KeyCode.char c) control = char_action c control
code_action _ control = nothing

unfoldable pub handle_key : KeyEvent → Action
handle_key key = code_action key.code key.control

abbrev filter_action : KeyCode → FilterAction
filter_action enter = confirm
filter_action KeyCode.backspace = FilterAction.backspace
filter_action (KeyCode.char c) = FilterAction.char c
filter_action _ = cancel

unfoldable pub handle_filter_key : KeyEvent → FilterAction
handle_filter_key key = filter_action key.code

-- The bytes of a character in UTF-8.
unfoldable pub encode_utf8 : ℕ → Text
encode_utf8 c =
    if ltb c 128
    then c ∷ []
    else if ltb c 2048
    then (192 + c / 64) ∷ (128 + c % 64) ∷ []
    else if ltb c 65536
    then (224 + c / 4096) ∷ (128 + c / 64 % 64) ∷ (128 + c % 64) ∷ []
    else (240 + c / 262144) ∷ (128 + c / 4096 % 64) ∷ (128 + c / 64 % 64) ∷ (128 + c % 64) ∷ []

-- `String::push`
unfoldable pub push_char : Text → ℕ → Text
unfolding encode_utf8
push_char s c = s ++ encode_utf8 c

-- A continuation byte of UTF-8.
abbrev is_continuation : ℕ → Bool
is_continuation b = leb 128 b && ltb b 192

abbrev pub continued : Text → Bool
continued [] = true
continued (b ∷ s) = is_continuation b && continued s

-- `String::pop`: the last byte that starts a character goes, and all after it.
unfoldable pub pop_char : Text → Text
pop_char [] = []
pop_char (b ∷ s) = let rest = pop_char s in if continued s then [] else b ∷ rest

abbrev Starts : Text → Type 0
Starts e = (continued e ≡ false) × (pop_char e ≡ [])

one-Starts : (a : ℕ) → a < 128 → Starts (a ∷ [])
unfolding pop_char
one-Starts a h = (ground (arith, h), refl)

continues : (c : ℕ) → is_continuation (128 + c % 64) ≡ true
continues c = ground arith

lead : (b : ℕ) → 192 ≤ b → is_continuation b ≡ false
lead b h = ground (arith, h)

two-Starts : (a x : ℕ) → 192 ≤ a → Starts (a ∷ (128 + x % 64) ∷ [])
unfolding pop_char
two-Starts a x h = (rw (lead a h) refl, rw (continues x) refl)

three-Starts : (a x y : ℕ) → 192 ≤ a → Starts (a ∷ (128 + x % 64) ∷ (128 + y % 64) ∷ [])
unfolding pop_char
three-Starts a x y h = (rw (lead a h) refl, rw (continues x, continues y) refl)

four-Starts :
    (a x y z : ℕ) → 192 ≤ a → Starts (a ∷ (128 + x % 64) ∷ (128 + y % 64) ∷ (128 + z % 64) ∷ [])
unfolding pop_char
four-Starts a x y z h = (rw (lead a h) refl, rw (continues x, continues y, continues z) refl)

encode_utf8-Starts : (c : ℕ) → Starts (encode_utf8 c)
unfolding encode_utf8
encode_utf8-Starts c = elim (Bool-cases (ltb c 128)) [
  | inl one ↦ rw one (one-Starts c (ground (arith, one)))
  | inr more ↦ elim (Bool-cases (ltb c 2048)) [
    | inl two ↦ rw (more, two) (two-Starts (192 + c / 64) c (omega arith))
    | inr more2 ↦ elim (Bool-cases (ltb c 65536)) [
      | inl three ↦ rw (more, more2, three) (three-Starts (224 + c / 4096) (c / 64) c (omega arith))
      | inr four ↦
          rw (more, more2, four)
            (four-Starts (240 + c / 262144) (c / 4096) (c / 64) c (omega arith))
    ]
  ]
]

continued-append : (s e : Text) → continued e ≡ false → continued (s ++ e) ≡ false
continued-append [] e h = h
continued-append (b ∷ s) e h = ground (arith, continued-append s e h)

-- Erasing a character that was just typed gives the text before it, for every character and text.
pub pop_char-push_char : (s : Text) (c : ℕ) → pop_char (push_char s c) ≡ s
unfolding push_char pop_char
pop_char-push_char [] c = (encode_utf8-Starts c).1
pop_char-push_char (b ∷ s) c =
    rw (continued-append s (encode_utf8 c) (encode_utf8-Starts c).0)
      (ap (◌∷◌ b) (pop_char-push_char s c))
