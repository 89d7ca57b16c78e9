-- ===== src/Protocol/Laws.antt =====
-- The codes and names of the protocol are read back as what they stand for.
use agent_procs.Prelude.{◌≡◌, refl}
use agent_procs.Prelude.Texts.{text_eq}
use agent_procs.Manager.Status.{mode_label}
use agent_procs.Protocol.{
  ErrorCode, general, not_found, exit_code, error_code_from, RestartMode, always, on_failure, never,
  parse_mode, mode_name, ProcessState, state_name, state_from,
}

-- An error code is read back from its exit code.
pub error_code_from-exit_code : (c : ErrorCode) → error_code_from (exit_code c) ≡ c
unfolding error_code_from exit_code
error_code_from-exit_code general = refl
error_code_from-exit_code not_found = refl

-- A restart mode is parsed from the name that it is serialized to, and from the name that the status
-- report gives it.
pub parse_mode-mode_name :
    (m : RestartMode) → (parse_mode (mode_name m) ≡ m) × (parse_mode (mode_label m) ≡ m)
unfolding parse_mode mode_name mode_label text_eq
parse_mode-mode_name always = (refl, refl)
parse_mode-mode_name on_failure = (refl, refl)
parse_mode-mode_name never = (refl, refl)

-- A process state is deserialized from the name that it is serialized to.
pub state_from-state_name : (s : ProcessState) → state_from (state_name s) ≡ s
unfolding state_from state_name text_eq
state_from-state_name ProcessState.running = refl
state_from-state_name ProcessState.exited = refl
state_from-state_name ProcessState.failed = refl
state_from-state_name ProcessState.unknown = refl
