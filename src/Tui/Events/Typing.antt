-- ===== src/Tui/Events/Typing.antt =====
-- Typing in the filter's line, and erasing.
use agent_procs.Prelude.{
  ℕ, ◌≡◌, refl, sym, ap, ◌∙◌, false, List, [], ◌∷◌, ◌++◌, append_assoc, append-nil, Text,
}
use agent_procs.Logs.Files.{Files}
use agent_procs.Tui.Keys.{
  KeyCode, handle_filter_key, encode_utf8, push_char, pop_char, pop_char-push_char,
}
use agent_procs.Tui.App.{filter_input}
use agent_procs.Tui.Events.{TuiEventLoop, AppEvent, key, on_app, key_in, handle_event}

abbrev pub press_of : KeyCode → AppEvent
press_of code = key (record { code = code; control = false })

abbrev pub typing : List ℕ → List AppEvent
typing [] = []
typing (c ∷ cs) = press_of (KeyCode.char c) ∷ typing cs

-- A backspace for each character.
abbrev pub erasing : List ℕ → List AppEvent
erasing [] = []
erasing (c ∷ cs) = erasing cs ++ press_of KeyCode.backspace ∷ []

abbrev pub utf8 : List ℕ → Text
utf8 [] = []
utf8 (c ∷ cs) = encode_utf8 c ++ utf8 cs

abbrev pub with_filter : (Text → Text) → TuiEventLoop → TuiEventLoop
with_filter f = on_app (λ a. record a { filter_buf = f a.filter_buf })

module _ (files : Files) (now : ℕ) (log_dir : Text) where
  abbrev pub handle_all : List AppEvent → TuiEventLoop → TuiEventLoop
  handle_all [] t = t
  handle_all (e ∷ es) t = handle_all es (handle_event files now log_dir e t)

  handle_all-append :
      (xs ys : List AppEvent) (t : TuiEventLoop)
      → handle_all (xs ++ ys) t ≡ handle_all ys (handle_all xs t)
  handle_all-append [] ys t = refl
  handle_all-append (x ∷ xs) ys t = handle_all-append xs ys (handle_event files now log_dir x t)

  typed :
      (c : ℕ) (t : TuiEventLoop)
      → t.app.input_mode ≡ filter_input
      → handle_event files now log_dir (press_of (KeyCode.char c)) t
        ≡ with_filter (λ s. push_char s c) t
  unfolding handle_event handle_filter_key
  typed c t e = ap (λ m. key_in files now m (record { code = KeyCode.char c; control = false }) t) e

  erased :
      (t : TuiEventLoop)
      → t.app.input_mode ≡ filter_input
      → handle_event files now log_dir (press_of KeyCode.backspace) t ≡ with_filter pop_char t
  unfolding handle_event handle_filter_key
  erased t e =
      ap (λ m. key_in files now m (record { code = KeyCode.backspace; control = false }) t) e

  typed_then_erased :
      (c : ℕ) (t : TuiEventLoop)
      → t.app.input_mode ≡ filter_input
      → handle_event files now log_dir
          (press_of KeyCode.backspace)
          (with_filter (λ s. push_char s c) t)
        ≡ t
  typed_then_erased c t e =
      erased (with_filter (λ s. push_char s c) t) e
      ∙ ap (λ s. with_filter (λ old. s) t) (pop_char-push_char t.app.filter_buf c)

  typing-appends :
      (cs : List ℕ) (t : TuiEventLoop)
      → t.app.input_mode ≡ filter_input
      → handle_all (typing cs) t ≡ with_filter (λ s. s ++ utf8 cs) t
  unfolding push_char
  typing-appends [] t e = ap (λ s. with_filter (λ old. s) t) (sym (append-nil t.app.filter_buf))
  typing-appends (c ∷ cs) t e =
      ap (handle_all (typing cs)) (typed c t e)
      ∙ typing-appends cs (with_filter (λ s. push_char s c) t) e
      ∙ ap (λ s. with_filter (λ old. s) t) (append_assoc t.app.filter_buf (encode_utf8 c) (utf8 cs))

  erasing-undoes :
      (cs : List ℕ) (t : TuiEventLoop)
      → t.app.input_mode ≡ filter_input
      → handle_all (typing cs ++ erasing cs) t ≡ t
  erasing-undoes [] t e = refl
  erasing-undoes (c ∷ cs) t e =
      let one = with_filter (λ s. push_char s c) t in
      ap (handle_all (typing cs ++ (erasing cs ++ press_of KeyCode.backspace ∷ []))) (typed c t e)
      ∙ ap (λ es. handle_all es one)
          (sym (append_assoc (typing cs) (erasing cs) (press_of KeyCode.backspace ∷ [])))
      ∙ handle_all-append (typing cs ++ erasing cs) (press_of KeyCode.backspace ∷ []) one
      ∙ ap (handle_event files now log_dir (press_of KeyCode.backspace)) (erasing-undoes cs one e)
      ∙ typed_then_erased c t e

  -- While the filter is edited, typing characters appends their UTF-8 to it and changes nothing else,
  -- and as many backspaces after them give back the state from before.
  pub typing-erasing :
      (cs : List ℕ) (t : TuiEventLoop)
      → t.app.input_mode ≡ filter_input
      → (handle_all (typing cs) t ≡ with_filter (λ s. s ++ utf8 cs) t)
        × (handle_all (typing cs ++ erasing cs) t ≡ t)
  typing-erasing cs t e = (typing-appends cs t e, erasing-undoes cs t e)
