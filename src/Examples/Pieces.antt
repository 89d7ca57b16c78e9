-- ===== src/Examples/Pieces.antt =====
-- The smaller components at concrete inputs.
use agent_procs.Prelude.Maps.{Map, lookup}
use agent_procs.Prelude.Texts.{text_eq}
use agent_procs.Manager.Names.{is_valid_dns_label}
use agent_procs.Proxy.{extract_subdomain, route, backend}
use agent_procs.Proxy.Laws.{extract_subdomain-label, route-label}
use agent_procs.Prelude.{
  ℕ, ◌<◌, ◌≡◌, refl, Bool, true, List, [], ◌∷◌, some, inr, bytes, take, drop, arith,
}
use agent_procs.Manager.Status.{mode_label}
use agent_procs.Protocol.{
  not_found, exit_code, error_code_from, on_failure, parse_mode, mode_name, ProcessState,
  state_name, state_from,
}
use agent_procs.Protocol.Laws.{
  error_code_from-exit_code, parse_mode-mode_name, state_from-state_name,
}
use agent_procs.Ports.{PortAllocator, auto_assign_port}
use agent_procs.Ports.Assign.{Usable, InRange, auto_assign_port-Usable, auto_assign_port_complete}
use agent_procs.Logs.Index.{IndexRecord, create, open_index, read_record, read_range}
use agent_procs.Logs.IndexLaws.{
  written, reader, read_record-written, open_index-written, read_range-written,
}
use agent_procs.Tui.Buffer.{
  LineSource, new_buffer, push, Counted, push-Counted, stdout_lines, stderr_lines,
}

error_code_from-exit_code_example : error_code_from (exit_code not_found) ≡ not_found
error_code_from-exit_code_example = error_code_from-exit_code not_found

parse_mode-mode_name_example :
    (parse_mode (mode_name on_failure) ≡ on_failure)
    × (parse_mode (mode_label on_failure) ≡ on_failure)
parse_mode-mode_name_example = parse_mode-mode_name on_failure

state_from-state_name_example : state_from (state_name ProcessState.failed) ≡ ProcessState.failed
state_from-state_name_example = state_from-state_name ProcessState.failed

abbrev all_free : ℕ → Bool
all_free p = true

abbrev allocator : PortAllocator
allocator = record { proxy_enabled = true; next_auto_port = 4999 }

assigned_4999 : (auto_assign_port all_free (4000 ∷ []) allocator).0 ≡ inr 4999
unfolding auto_assign_port agent_procs.Ports.scan_ports agent_procs.Ports.candidate
assigned_4999 = refl

auto_assign_port-Usable_example :
    Usable all_free (4000 ∷ []) 4999
    × InRange 4999
    × InRange (auto_assign_port all_free (4000 ∷ []) allocator).1.next_auto_port
auto_assign_port-Usable_example =
    auto_assign_port-Usable all_free (4000 ∷ []) allocator 4999 assigned_4999

auto_assign_port_complete_example :
    (p : ℕ) × ((auto_assign_port all_free (4000 ∷ []) allocator).0 ≡ inr p)
auto_assign_port_complete_example =
    auto_assign_port_complete all_free (4000 ∷ []) allocator 4001 (omega arith, omega arith)
      (refl, refl)

abbrev two_records : List IndexRecord
two_records = record { byte_offset = 0; seq = 0 } ∷ record { byte_offset = 300; seq = 2 } ∷ []

read_record-written_example :
    read_record (reader 0 two_records) 1 ≡ some (record { byte_offset = 300; seq = 2 })
read_record-written_example =
    read_record-written 0 two_records 1 (record { byte_offset = 300; seq = 2 }) refl
      (omega arith, omega arith)

open_index-written_example :
    open_index (written (create 7) two_records) ≡ some (reader 7 two_records)
open_index-written_example = open_index-written 7 two_records (omega arith)

read_range-written_example : read_range (reader 0 two_records) 1 5 ≡ take 5 (drop 1 two_records)
read_range-written_example =
    read_range-written 0 two_records 1 5
      ((omega arith, omega arith), ((omega arith, omega arith), tt))

one_line : 0 < (new_buffer 2).max_lines
unfolding new_buffer
one_line = omega arith

empty-Counted : Counted (new_buffer 2)
unfolding new_buffer stdout_lines stderr_lines
empty-Counted = (refl, refl, omega arith)

push-Counted_example : Counted (push LineSource.stderr (bytes "oops") (new_buffer 2))
push-Counted_example =
    push-Counted LineSource.stderr (bytes "oops") (new_buffer 2) one_line empty-Counted

abbrev routes : Map ℕ
routes = (bytes "api", 4000) ∷ (bytes "web", 4001) ∷ []

web-label : is_valid_dns_label (bytes "web") ≡ true
unfolding is_valid_dns_label
web-label = refl

web-port : lookup (bytes "web") routes ≡ some 4001
unfolding lookup text_eq
web-port = refl

extract_subdomain-label_example :
    extract_subdomain (bytes "web.localhost:9090") ≡ some (bytes "web")
extract_subdomain-label_example = extract_subdomain-label (bytes "web") (bytes "9090") web-label

route-label_example : route routes (bytes "web.localhost:9090") ≡ backend 4001
route-label_example = route-label routes (bytes "web") (bytes "9090") 4001 web-label web-port
