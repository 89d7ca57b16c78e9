-- ===== src/Examples/Order.antt =====
-- Startup orders of concrete projects.
use agent_procs.Config.Errors.{reports_unknown, all_known, startup_order-reports_unknown}
use agent_procs.Prelude.{
  ◌≡◌, ◌≢◌, refl, List, [], ◌∷◌, Option, none, some, inl, inr, Text, bytes, not, false,
}
use agent_procs.Prelude.Maps.{Map}
use agent_procs.Config.{ProcessDef, ConfigError, startup_order}
use agent_procs.Config.Laws.{startup_order-total}

abbrev service : List Text → ProcessDef
service deps = record {
  cmd = bytes "run";
  cwd = none;
  env = [];
  ready = none;
  depends_on = deps;
  port = none;
  autorestart = none;
  max_restarts = none;
  restart_delay = none;
  watch = none;
  watch_ignore = none;
}

abbrev project : Map ProcessDef
project = (bytes "api", service (bytes "db" ∷ [])) ∷ (bytes "db", service ([])) ∷ []

abbrev cyclic : Map ProcessDef
cyclic = (bytes "a", service (bytes "a" ∷ [])) ∷ []

startup_order-total_example : startup_order project ≢ none
startup_order-total_example = startup_order-total project

project_order : startup_order project ≡ some (inr ((bytes "db" ∷ []) ∷ (bytes "api" ∷ []) ∷ []))
unfolding startup_order agent_procs.Config.add_all agent_procs.Config.add_deps
    agent_procs.Config.finish_group agent_procs.Prelude.Maps.lookup
    agent_procs.Prelude.Texts.text_eq agent_procs.Config.peel agent_procs.Prelude.Maps.insert
    agent_procs.Prelude.Maps.adjust agent_procs.Prelude.Maps.remove agent_procs.Prelude.Sort.sort_by
    agent_procs.Prelude.Sort.insert_sorted agent_procs.Prelude.Sort.text_le
project_order = refl

cyclic_order : startup_order cyclic ≡ some (inl ConfigError.cycle_detected)
unfolding startup_order agent_procs.Config.add_all agent_procs.Config.add_deps
    agent_procs.Config.finish_group agent_procs.Prelude.Maps.lookup
    agent_procs.Prelude.Texts.text_eq agent_procs.Config.peel agent_procs.Prelude.Maps.insert
    agent_procs.Prelude.Maps.adjust agent_procs.Prelude.Maps.remove agent_procs.Prelude.Sort.sort_by
    agent_procs.Prelude.Sort.insert_sorted agent_procs.Prelude.Sort.text_le
cyclic_order = refl

abbrev broken : Map ProcessDef
broken = (bytes "api", service (bytes "db" ∷ bytes "cache" ∷ [])) ∷ (bytes "db", service []) ∷ []

startup_order-reports_unknown_example :
    reports_unknown (startup_order broken) ≡ not (all_known broken broken)
startup_order-reports_unknown_example = startup_order-reports_unknown broken

broken_unknown : all_known broken broken ≡ false
unfolding agent_procs.Prelude.Maps.lookup agent_procs.Prelude.Texts.text_eq
broken_unknown = refl
