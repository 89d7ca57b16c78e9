-- ===== src/Examples/Waits.antt =====
-- A wait for a line with "ready".
use agent_procs.Prelude.{
  ℕ, ◌≡◌, refl, Bool, true, false, List, [], ◌∷◌, some, none, inr, Text, bytes,
}
use agent_procs.Prelude.Texts.{text_eq, contains, starts_with}
use agent_procs.Protocol.{Response, Stream}
use agent_procs.Logs.Writer.{OutputLine}
use agent_procs.Wait.{
  WaitEvent, received, tick, Arrival, answer_at, timed_out, Regex, never, wait_loop, wait_for,
}
use agent_procs.Wait.Laws.{FirstDecides, wait_loop-FirstDecides, InTime, wait_for-InTime}

abbrev said : Text → Text → OutputLine
said process line = record { process = process; stream = Stream.stdout; line = line }

abbrev has_ready : Text → Bool
has_ready line = contains line (bytes "ready")

abbrev come : ℕ → WaitEvent → Arrival
come at event = record { at = at; event = event }

abbrev events : List Arrival
events =
    come 5 (received (said (bytes "db") (bytes "ready")))
    ∷ come 40 (received (said (bytes "web") (bytes "boot")))
    ∷ come 100 (tick none)
    ∷ come 170 (received (said (bytes "web") (bytes "now ready")))
    ∷ []

answered :
    wait_loop has_ready (bytes "web") true 1000 events
    ≡ answer_at (Response.wait_match (bytes "now ready")) 170
unfolding wait_loop text_eq contains starts_with
answered = refl

too_late : wait_loop has_ready (bytes "web") true 150 events ≡ timed_out 150
unfolding wait_loop text_eq contains starts_with
too_late = refl

wait_loop-FirstDecides_example :
    FirstDecides has_ready
      (bytes "web")
      true
      1000
      (wait_loop has_ready (bytes "web") true 1000 events)
      events
wait_loop-FirstDecides_example = wait_loop-FirstDecides has_ready (bytes "web") true 1000 events

abbrev any_regex : Regex
any_regex p = inr never

wait_for-InTime_example :
    InTime 150 (wait_for any_regex (bytes "web") (some (bytes "up")) false true 150 none events)
wait_for-InTime_example =
    wait_for-InTime any_regex (bytes "web") (some (bytes "up")) false true 150 none events
