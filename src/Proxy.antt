-- ===== src/Proxy.antt =====
-- src/daemon/proxy.rs: which process a request goes to.
pub mod Laws
use agent_procs.Prelude.{
  ℕ, Bool, true, false, List, [], ◌∷◌, ◌++◌, Option, none, some, Text, bytes, text_eq, ◌==◌,
  if◌then◌else◌,
}
use agent_procs.Prelude.Maps.{Map, lookup}

-- `split(sep)`: the first piece, and the others.
unfoldable pub split : ℕ → Text → Text × List Text
split sep [] = ([], [])
split sep (c ∷ s) =
    let (first, rest) = split sep s in if c == sep then ([], first ∷ rest) else (c ∷ first, rest)

-- The last two of the pieces, the last one first.
abbrev pub last_two : Text → List Text → Option (Text × Text)
last_two x [] = none
last_two x (y ∷ []) = some (y, x)
last_two x (y ∷ z ∷ zs) = last_two y (z ∷ zs)

abbrev pub before_localhost : Option (Text × Text) → Option Text
before_localhost none = none
before_localhost (some (last, second_to_last)) =
    if text_eq last (bytes "localhost") then some second_to_last else none

unfoldable pub extract_subdomain : Text → Option Text
unfolding split
extract_subdomain host =
    let hostname = (split b':' host).0 in
    let parts = split b'.' hostname in before_localhost (last_two parts.0 parts.1)

-- Where `handle_proxy_request` sends a request.
pub data Route : Type 0 where
  status_page : Route
  bad_gateway : (process_name : Text) → Route
  backend : (port : ℕ) → Route

abbrev pub route_port : Text → Option ℕ → Route
route_port name none = bad_gateway name
route_port name (some port) = backend port

abbrev pub route_to : Map ℕ → Option Text → Route
route_to port_map none = status_page
route_to port_map (some name) = route_port name (lookup name port_map)

unfoldable pub route : Map ℕ → Text → Route
unfolding extract_subdomain
route port_map host = route_to port_map (extract_subdomain host)
