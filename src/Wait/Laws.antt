-- ===== src/Wait/Laws.antt =====
-- A wait answers by the first event that decides it, and in time.
use agent_procs.Prelude.{
  ℕ, ◌≤◌, ◌<◌, ◌≡◌, refl, sym, ap, subst, Bool, true, false, List, [], ◌∷◌, ◌++◌, Option, none,
  some, Text, text_eq, if◌then◌else◌, All, inl, inr, ◌⊎◌, leb, arith, Bool-cases,
}
use agent_procs.Prelude.Int.{ℤ}
use agent_procs.Protocol.{Response}
use agent_procs.Logs.Writer.{OutputLine}
use agent_procs.Wait.{
  WaitEvent, received, lagged, closed, tick, Arrival, Answer, answer_at, timed_out, Exited, exit_or,
  closed_error, step, wait_loop, start_wait, matcher, compiled, Regex, wait_for,
}

module _ (matched : Text → Bool) (target : Text) (wait_exit : Bool) where
  -- The events that decide a wait, with their responses. A closed channel is an error only where no
  -- exit is seen.
  pub data Decides : Response → WaitEvent → Type 0 where
    line :
        (l : OutputLine)
        → text_eq l.process target ≡ true
        → matched l.line ≡ true
        → Decides (Response.wait_match l.line) (received l)
    exit_seen :
        (code : Option ℤ)
        → wait_exit ≡ true
        → Decides (Response.wait_exited code) (tick (some code))
    exit_last :
        (code : Option ℤ)
        → wait_exit ≡ true
        → Decides (Response.wait_exited code) (closed (some code))
    cut_off_running : wait_exit ≡ true → Decides closed_error (closed none)
    cut_off : (e : Exited) → wait_exit ≡ false → Decides closed_error (closed e)

  abbrev pub Undecided : WaitEvent → Type 0
  Undecided e = (r : Response) → Decides r e → ⊥

  other_process : (l : OutputLine) → text_eq l.process target ≡ false → Undecided (received l)
  other_process l h r (line k p m) = absurd (cc)

  no_match : (l : OutputLine) → matched l.line ≡ false → Undecided (received l)
  no_match l h r (line k p m) = absurd (cc)

  lag : Undecided lagged
  lag r d = elim d [ ]

  no_exit : Undecided (tick none)
  no_exit r d = elim d [ ]

  no_wait : (e : Exited) → wait_exit ≡ false → Undecided (tick e)
  no_wait _ h r (exit_seen c w) = absurd (cc)

  module _ (timeout : ℕ) where
    -- How a wait ends at what comes next: by the timer, where nothing comes before it runs out, or by
    -- an event that decides, when that comes.
    abbrev pub Ends : Answer → List Arrival → Type 0
    Ends a [] = a ≡ timed_out timeout
    Ends a (e ∷ es) =
        ((timeout ≤ e.at) × (a ≡ timed_out timeout))
        ⊎ ((e.at < timeout) × (a.at ≡ e.at) × Decides a.response e.event)

    -- The answer is that of the first event that decides, or the timeout.
    pub record FirstDecides (a : Answer) (es : List Arrival) : Type 0 where
      pub before : List Arrival
      pub after : List Arrival
      pub split : es ≡ before ++ after
      pub passed : All (λ e. (e.at < timeout) × Undecided e.event) before
      pub ends : Ends a after

    module _ (e : Arrival) (es : List Arrival) (in_time : e.at < timeout) where
      decided : (r : Response) → Decides r e.event → FirstDecides (answer_at r e.at) (e ∷ es)
      decided r d = record {
        before = [];
        after = e ∷ es;
        split = refl;
        passed = tt;
        ends = inr (in_time, refl, d);
      }

      passed_by : (a : Answer) → Undecided e.event → FirstDecides a es → FirstDecides a (e ∷ es)
      passed_by a u f = record {
        before = e ∷ f.before;
        after = f.after;
        split = ap (◌∷◌ e) f.split;
        passed = ((in_time, u), f.passed);
        ends = f.ends;
      }

      module _ (rest : Answer) (later : FirstDecides rest es) where
        on_line :
            (l : OutputLine) (mine hit : Bool)
            → e.event ≡ received l
            → text_eq l.process target ≡ mine
            → matched l.line ≡ hit
            → FirstDecides
                (if mine
                  then (if hit then answer_at (Response.wait_match l.line) e.at else rest)
                  else rest)
                (e ∷ es)
        on_line l false hit v m k =
            passed_by rest (subst Undecided (sym v) (other_process l m)) later
        on_line l true false v m k = passed_by rest (subst Undecided (sym v) (no_match l k)) later
        on_line l true true v m k =
            decided (Response.wait_match l.line)
              (subst (Decides (Response.wait_match l.line)) (sym v) (line l m k))

        on_closed :
            (x : Exited) (w : Bool)
            → e.event ≡ closed x
            → wait_exit ≡ w
            → FirstDecides
                (if w
                  then exit_or x e.at (answer_at closed_error e.at)
                  else answer_at closed_error e.at)
                (e ∷ es)
        on_closed x false v k =
            decided closed_error (subst (Decides closed_error) (sym v) (cut_off x k))
        on_closed none true v k =
            decided closed_error (subst (Decides closed_error) (sym v) (cut_off_running k))
        on_closed (some code) true v k =
            decided (Response.wait_exited code)
              (subst (Decides (Response.wait_exited code)) (sym v) (exit_last code k))

        on_tick :
            (x : Exited) (w : Bool)
            → e.event ≡ tick x
            → wait_exit ≡ w
            → FirstDecides (if w then exit_or x e.at rest else rest) (e ∷ es)
        on_tick x false v k = passed_by rest (subst Undecided (sym v) (no_wait x k)) later
        on_tick none true v k = passed_by rest (subst Undecided (sym v) no_exit) later
        on_tick (some code) true v k =
            decided (Response.wait_exited code)
              (subst (Decides (Response.wait_exited code)) (sym v) (exit_seen code k))

        step-FirstDecides :
            (v : WaitEvent)
            → e.event ≡ v
            → FirstDecides (step matched target wait_exit e.at v rest) (e ∷ es)
        step-FirstDecides (received l) v =
            on_line l (text_eq l.process target) (matched l.line) v refl refl
        step-FirstDecides lagged v = passed_by rest (subst Undecided (sym v) lag) later
        step-FirstDecides (closed x) v = on_closed x wait_exit v refl
        step-FirstDecides (tick x) v = on_tick x wait_exit v refl

    -- A wait answers by the first event that decides it, if that comes before the timer runs out: by
    -- the first line of its process that matches, by the exit that it waits for, or by the closing of
    -- the channel, with the exit if one is waited for and seen, else with an error. Otherwise it
    -- answers with the timeout, when the timer runs out.
    pub wait_loop-FirstDecides :
        (es : List Arrival) → FirstDecides (wait_loop matched target wait_exit timeout es) es
    unfolding wait_loop
    wait_loop-FirstDecides [] = record {
      before = [];
      after = [];
      split = refl;
      passed = tt;
      ends = refl;
    }
    wait_loop-FirstDecides (e ∷ es) = elim (Bool-cases (leb timeout e.at)) [
      | inl late ↦ rw late (record {
        before = [];
        after = e ∷ es;
        split = refl;
        passed = tt;
        ends = inl (ground (arith, late), refl);
      })
      | inr early ↦ rw early (
          step-FirstDecides e es (ground (arith, early))
            (wait_loop matched target wait_exit timeout es) (wait_loop-FirstDecides es) e.event
            refl)
    ]

-- The answer is given by the time that the timer runs out, and is the timeout only then.
abbrev pub InTime : ℕ → Answer → Type 0
InTime timeout a = (a.at ≤ timeout) × (a.response ≡ Response.wait_timeout → a.at ≡ timeout)

decided-ne-timeout :
    (matched : Text → Bool) (target : Text) (wait_exit : Bool) (r : Response) (e : WaitEvent)
    → Decides matched target wait_exit r e
    → r ≡ Response.wait_timeout
    → ⊥
decided-ne-timeout matched target wait_exit _ _ (line l p m) h = absurd (cc)
decided-ne-timeout matched target wait_exit _ _ (exit_seen code w) h = absurd (cc)
decided-ne-timeout matched target wait_exit _ _ (exit_last code w) h = absurd (cc)
decided-ne-timeout matched target wait_exit _ _ (cut_off_running w) h = absurd (cc)
decided-ne-timeout matched target wait_exit _ _ (cut_off e w) h = absurd (cc)

Ends-InTime :
    (matched : Text → Bool) (target : Text) (wait_exit : Bool) (timeout : ℕ) (a : Answer)
    (es : List Arrival)
    → Ends matched target wait_exit timeout a es
    → InTime timeout a
Ends-InTime matched target wait_exit timeout a [] h =
    subst (InTime timeout) (sym h) (omega arith, λ e. refl)
Ends-InTime matched target wait_exit timeout a (e ∷ es) (inl (late, h)) =
    subst (InTime timeout) (sym h) (omega arith, λ e. refl)
Ends-InTime matched target wait_exit timeout a (e ∷ es) (inr (early, now, d)) = (
  omega (arith, early, now),
  λ h. absurd (decided-ne-timeout matched target wait_exit a.response e.event d h),
)

loop-InTime :
    (matched : Text → Bool) (target : Text) (wait_exit : Bool) (timeout : ℕ) (es : List Arrival)
    → InTime timeout (wait_loop matched target wait_exit timeout es)
loop-InTime matched target wait_exit timeout es =
    let f = wait_loop-FirstDecides matched target wait_exit timeout es in
    Ends-InTime matched target wait_exit timeout (wait_loop matched target wait_exit timeout es)
      f.after f.ends

exit_or-InTime :
    (timeout : ℕ) (w : Bool) (x : Exited) (rest : Answer)
    → InTime timeout rest
    → InTime timeout (if w then exit_or x 0 rest else rest)
exit_or-InTime timeout false x rest h = h
exit_or-InTime timeout true none rest h = h
exit_or-InTime timeout true (some c) rest h = (omega arith, λ e. absurd (cc))

start_wait-InTime :
    (regex : Regex) (target : Text) (pattern : Option Text) (use_regex wait_exit : Bool)
    (timeout : ℕ) (exited : Exited) (events : List Arrival)
    → InTime timeout
        (start_wait target wait_exit timeout exited events (matcher regex pattern use_regex))
start_wait-InTime regex target none use_regex wait_exit timeout exited events =
    exit_or-InTime timeout wait_exit exited _ (loop-InTime _ target wait_exit timeout events)
start_wait-InTime regex target (some p) false wait_exit timeout exited events =
    exit_or-InTime timeout wait_exit exited _ (loop-InTime _ target wait_exit timeout events)
start_wait-InTime regex target (some p) true wait_exit timeout exited events = chosen (regex p)
  where
    chosen :
        (c : Text ⊎ (Text → Bool))
        → InTime timeout (start_wait target wait_exit timeout exited events (compiled c))
    chosen (inl e) = (omega arith, λ h. absurd (cc))
    chosen (inr test) =
        exit_or-InTime timeout wait_exit exited _ (loop-InTime test target wait_exit timeout events)

-- Every wait answers by the time that its timer runs out, however many lines, lags and ticks it
-- takes before, and it answers with the timeout only then.
pub wait_for-InTime :
    (regex : Regex) (target : Text) (pattern : Option Text) (use_regex wait_exit : Bool)
    (timeout : ℕ) (exited : Exited) (events : List Arrival)
    → InTime timeout (wait_for regex target pattern use_regex wait_exit timeout exited events)
unfolding wait_for
wait_for-InTime regex target pattern use_regex wait_exit timeout exited events =
    start_wait-InTime regex target pattern use_regex wait_exit timeout exited events
