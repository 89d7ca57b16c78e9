-- ===== src/Wait.antt =====
-- src/daemon/wait_engine.rs: waiting for a line or the exit of a process, as a function of what the
-- wait receives. Regular expressions are a parameter.
pub mod Laws
use agent_procs.Prelude.{
  ℕ, Bool, true, false, List, [], ◌∷◌, ◌++◌, Option, none, some, ◌⊎◌, inl, inr, Text, bytes,
  text_eq, contains, if◌then◌else◌, leb,
}
use agent_procs.Prelude.Int.{ℤ}
use agent_procs.Protocol.{Response, ErrorCode, general}
use agent_procs.Logs.Writer.{OutputLine}

-- The answer of `is_process_exited`: `none` while the process runs, else its exit code.
abbrev pub Exited : Type 0
Exited = Option (Option ℤ)

-- What the inner `select!` takes next. A closed channel and a tick ask whether the process exited.
pub data WaitEvent : Type 0 where
  received : OutputLine → WaitEvent
  lagged : WaitEvent
  closed : Exited → WaitEvent
  tick : Exited → WaitEvent

-- An event and when it comes, in milliseconds from the start of the timer.
pub record Arrival : Type 0 where
  pub at : ℕ
  pub event : WaitEvent

-- A response and when it is given.
pub record Answer : Type 0 where
  pub response : Response
  pub at : ℕ

abbrev pub answer_at : Response → ℕ → Answer
answer_at r t = record { response = r; at = t }

abbrev pub timed_out : ℕ → Answer
timed_out timeout = answer_at Response.wait_timeout timeout

abbrev pub exit_or : Exited → ℕ → Answer → Answer
exit_or none now rest = rest
exit_or (some code) now rest = answer_at (Response.wait_exited code) now

abbrev pub closed_error : Response
closed_error = Response.error general (bytes "output channel closed")

-- The answer to an event that comes at `now`, given that to the later ones; a tick comes only where
-- exits are waited for.
abbrev pub step : (Text → Bool) → Text → Bool → ℕ → WaitEvent → Answer → Answer
step matched target wait_exit now (received l) rest =
    if text_eq l.process target
    then (if matched l.line then answer_at (Response.wait_match l.line) now else rest)
    else rest
step matched target wait_exit now lagged rest = rest
step matched target wait_exit now (closed e) rest =
    if wait_exit then exit_or e now (answer_at closed_error now) else answer_at closed_error now
step matched target wait_exit now (tick e) rest = if wait_exit then exit_or e now rest else rest

-- The outer `select!`: the timer was started once, before the first event, and an event that would
-- come when it has run out is not taken.
unfoldable pub wait_loop : (Text → Bool) → Text → Bool → ℕ → List Arrival → Answer
wait_loop matched target wait_exit timeout [] = timed_out timeout
wait_loop matched target wait_exit timeout (e ∷ es) =
    let rest = wait_loop matched target wait_exit timeout es in
    if leb timeout e.at then timed_out timeout else step matched target wait_exit e.at e.event rest

-- `Regex::new`: an error's text, or the test of the expression.
abbrev pub Regex : Type 0
Regex = Text → Text ⊎ (Text → Bool)

abbrev pub never : Text → Bool
never line = false

abbrev pub compiled : Text ⊎ (Text → Bool) → Response ⊎ (Text → Bool)
compiled (inl e) = inl (Response.error general (bytes "invalid regex: " ++ e))
compiled (inr test) = inr test

-- How a line is matched: by a regular expression, or as a substring, or, without a pattern, never.
abbrev pub matcher : Regex → Option Text → Bool → Response ⊎ (Text → Bool)
matcher regex none use_regex = inr never
matcher regex (some pattern) true = compiled (regex pattern)
matcher regex (some pattern) false = inr (λ line. contains line pattern)

abbrev pub start_wait : Text → Bool → ℕ → Exited → List Arrival → Response ⊎ (Text → Bool) → Answer
start_wait target wait_exit timeout exited events (inl e) = answer_at e 0
start_wait target wait_exit timeout exited events (inr matched) =
    let rest = wait_loop matched target wait_exit timeout events in
    if wait_exit then exit_or exited 0 rest else rest

-- `exited` is the answer before the wait begins.
unfoldable pub wait_for :
    Regex → Text → Option Text → Bool → Bool → ℕ → Exited → List Arrival → Answer
unfolding wait_loop
wait_for regex target pattern use_regex wait_exit timeout exited events =
    start_wait target wait_exit timeout exited events (matcher regex pattern use_regex)
