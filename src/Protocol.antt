-- ===== src/Protocol.antt =====
-- src/protocol.rs: the messages between the daemon and its clients, and the values in them.
pub mod Laws
use agent_procs.Prelude.{
  ℕ, Bool, true, false, not, List, [], ◌∷◌, ◌++◌, Option, none, some, Text, bytes, text_eq, decimal,
  if◌then◌else◌, unwrap_or,
}
use agent_procs.Prelude.Int.{ℤ, pos, negsuc, int_eq}
use agent_procs.Prelude.Maps.{Map}

abbrev pub max_message_size : ℕ
max_message_size = 1048576

abbrev pub protocol_version : ℕ
protocol_version = 1

pub data ErrorCode : Type 0 where
  general not_found : ErrorCode

-- `c as i32`
unfoldable pub exit_code : ErrorCode → ℤ
exit_code general = pos 1
exit_code not_found = pos 2

-- `From<i32>`
unfoldable pub error_code_from : ℤ → ErrorCode
error_code_from v = if int_eq v (pos 2) then not_found else general

pub data RestartMode : Type 0 where
  always on_failure never : RestartMode

pub record RestartPolicy : Type 0 where
  pub mode : RestartMode
  pub max_restarts : Option ℕ  -- u32
  pub restart_delay_ms : ℕ  -- u64

-- `RestartMode::parse`
unfoldable pub parse_mode : Text → RestartMode
parse_mode s =
    if text_eq s (bytes "always")
    then always
    else if text_eq s (bytes "on-failure")
    then on_failure
    else never

-- The names of `rename_all = "kebab-case"`, which the status report also uses.
unfoldable pub mode_name : RestartMode → Text
mode_name always = bytes "always"
mode_name on_failure = bytes "on-failure"
mode_name never = bytes "never"

abbrev is_clean : Option ℤ → Bool
is_clean none = false
is_clean (some c) = int_eq c (pos 0)

unfoldable pub should_restart : RestartMode → Option ℤ → Bool
should_restart never exit = false
should_restart always exit = true
should_restart on_failure exit = not (is_clean exit)

-- `RestartPolicy::from_args`
unfoldable pub policy_from_args : Text → Option ℕ → Option ℕ → RestartPolicy
unfolding parse_mode
policy_from_args mode max_restarts restart_delay = record {
  mode = parse_mode mode;
  max_restarts = max_restarts;
  restart_delay_ms = unwrap_or restart_delay 1000;
}

pub record WatchConfig : Type 0 where
  pub paths : List Text
  pub ignore : Option (List Text)

abbrev none_if_empty : List Text → Option (List Text)
none_if_empty [] = none
none_if_empty (x ∷ xs) = some (x ∷ xs)

-- `WatchConfig::from_args`
unfoldable pub watch_from_args : List Text → List Text → Option WatchConfig
watch_from_args [] ignore = none
watch_from_args (p ∷ ps) ignore = some (record { paths = p ∷ ps; ignore = none_if_empty ignore })

unfoldable pub process_url : Text → ℕ → Option ℕ → Text
process_url name port (some pp) = bytes "http://" ++ name ++ bytes ".localhost:" ++ decimal pp
process_url name port none = bytes "http://127.0.0.1:" ++ decimal port

pub data ProcessState : Type 0 where
  running exited failed unknown : ProcessState

-- `Display`
unfoldable pub state_label : ProcessState → Text
state_label running = bytes "running"
state_label exited = bytes "exited"
state_label failed = bytes "FAILED"
state_label unknown = bytes "unknown"

-- `Serialize` under `rename_all = "lowercase"`
unfoldable pub state_name : ProcessState → Text
state_name running = bytes "running"
state_name exited = bytes "exited"
state_name failed = bytes "failed"
state_name unknown = bytes "unknown"

-- `Deserialize`
unfoldable pub state_from : Text → ProcessState
state_from s =
    if text_eq s (bytes "running")
    then running
    else if text_eq s (bytes "exited")
    then exited
    else if text_eq s (bytes "failed")
    then failed
    else unknown

pub data Stream : Type 0 where
  stdout stderr : Stream

pub record ProcessInfo : Type 0 where
  pub name : Text
  pub id : Text
  pub pid : ℕ
  pub state : ProcessState
  pub exit_code : Option ℤ
  pub uptime_secs : Option ℕ
  pub command : Text
  pub port : Option ℕ
  pub url : Option Text
  pub restart_count : Option ℕ
  pub max_restarts : Option ℕ
  pub restart_policy : Option Text
  pub watched : Option Bool

pub data Request : Type 0 where
  run :
      (command : Text) (name cwd : Option Text) (env : Option (Map Text)) (port : Option ℕ)
      (restart : Option RestartPolicy) (watch : Option WatchConfig)
      → Request
  stop : (target : Text) → Request
  stop_all : Request
  restart : (target : Text) → Request
  status : Request
  logs :
      (target : Option Text) (tail : ℕ) (follow stderr all : Bool) (timeout_secs lines : Option ℕ)
      → Request
  wait :
      (target : Text) (until : Option Text) (regex exit : Bool) (timeout_secs : Option ℕ) → Request
  shutdown : Request
  enable_proxy : (proxy_port : Option ℕ) → Request
  hello : (version : ℕ) → Request
  unknown : Request

pub data Response : Type 0 where
  ok : (message : Text) → Response
  run_ok : (name id : Text) (pid : ℕ) (port : Option ℕ) (url : Option Text) → Response
  status : (processes : List ProcessInfo) → Response
  log_line : (process : Text) (stream : Stream) (line : Text) → Response
  log_end : Response
  wait_match : (line : Text) → Response
  wait_exited : (exit_code : Option ℤ) → Response
  wait_timeout : Response
  error : (code : ErrorCode) (message : Text) → Response
  hello : (version : ℕ) → Response
  unknown : Response
