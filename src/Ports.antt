-- ===== src/Ports.antt =====
-- src/daemon/port_allocator.rs: ports 4000 to 4999 for processes behind the proxy.
pub mod Assign
use agent_procs.Prelude.{
  ℕ, zero, suc, ◌+◌, ◌-◌, ◌%◌, Bool, true, false, List, ◌++◌, Option, none, some, ◌⊎◌, inl, inr,
  Text, bytes, decimal, leb, ◌==◌, if◌then◌else◌, exists,
}

abbrev pub auto_port_min : ℕ
auto_port_min = 4000

abbrev pub auto_port_max : ℕ
auto_port_max = 4999

abbrev pub range_size : ℕ
range_size = 1000

pub record PortAllocator : Type 0 where
  pub proxy_enabled : Bool
  pub next_auto_port : ℕ  -- u16

unfoldable pub new_allocator : PortAllocator
new_allocator = record { proxy_enabled = false; next_auto_port = auto_port_min }

abbrev pub is_assigned : ℕ → List ℕ → Bool
is_assigned p = exists (λ q. q == p)

unfoldable pub candidate : ℕ → ℕ → ℕ
candidate next i = auto_port_min + (next - auto_port_min + i) % range_size

abbrev pub following : ℕ → ℕ
following p = if leb auto_port_max p then auto_port_min else p + 1

-- The `for` loop at round `i`, with `left` rounds to go. `can_bind` is the bind test.
unfoldable pub scan_ports : (ℕ → Bool) → List ℕ → ℕ → ℕ → ℕ → Option ℕ
scan_ports can_bind assigned next i zero = none
scan_ports can_bind assigned next i (suc left) =
    let p = candidate next i in
    let rest = scan_ports can_bind assigned next (i + 1) left in
    if is_assigned p assigned then rest else if can_bind p then some p else rest

-- The `NoFreeAutoPort` message.
unfoldable pub no_free_auto_port : ℕ → Text
no_free_auto_port start =
    bytes "no free port available in range "
    ++ decimal auto_port_min
    ++ bytes "-"
    ++ decimal auto_port_max
    ++ bytes " (started at "
    ++ decimal start
    ++ bytes ")"

abbrev pub with_scan : PortAllocator → Option ℕ → (Text ⊎ ℕ) × PortAllocator
with_scan a none = (inl (no_free_auto_port a.next_auto_port), a)
with_scan a (some p) = (inr p, record a { next_auto_port = following p })

unfoldable pub auto_assign_port : (ℕ → Bool) → List ℕ → PortAllocator → (Text ⊎ ℕ) × PortAllocator
auto_assign_port can_bind assigned a =
    with_scan a (scan_ports can_bind assigned a.next_auto_port 0 range_size)
