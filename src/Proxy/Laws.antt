-- ===== src/Proxy/Laws.antt =====
-- The proxy URL of a process leads to it.
use agent_procs.Prelude.{
  ℕ, ◌≡◌, refl, sym, ap, ◌∙◌, true, false, [], ◌∷◌, ◌++◌, none, some, Text, bytes, text_eq_refl,
  ◌==◌, ==_refl, ==_iff, if◌then◌else◌, every, not, ◌||◌, arith, Bool-cases, inl, inr, ltb, length,
  append_assoc,
}
use agent_procs.Prelude.Maps.{Map, lookup}
use agent_procs.Manager.Names.{
  is_valid_dns_label, is_label_char, is_empty, starts_with_hyphen, ends_with_hyphen,
}
use agent_procs.Proxy.{
  split, last_two, before_localhost, extract_subdomain, route, route_to, route_port, backend,
}

abbrev Without : ℕ → Text → Type 0
Without sep s = every (λ c. not (c == sep)) s ≡ true

-- A text without the separator is one piece, up to where the separator comes.
split-piece :
    (sep : ℕ) (s t : Text)
    → Without sep s
    → split sep (s ++ sep ∷ t) ≡ (s, (split sep t).0 ∷ (split sep t).1)
unfolding split
split-piece sep [] t h = rw (==_refl sep) refl
split-piece sep (c ∷ s) t h = elim (Bool-cases (c == sep)) [
  | inl same ↦ absurd (ground (arith, same, h))
  | inr other ↦
      let later : Without sep s = ground (arith, h, other) in
      rw other (ap (λ p. (c ∷ p.0, p.1)) (split-piece sep s t later))
]

label-Without :
    (sep : ℕ) (s : Text) → is_label_char sep ≡ false → every is_label_char s ≡ true → Without sep s
label-Without sep [] d h = refl
label-Without sep (c ∷ s) d h = elim (Bool-cases (c == sep)) [
  | inl same ↦ absurd (ground (arith, d, h, ap is_label_char ((==_iff c sep).0 same)))
  | inr other ↦ ground (arith, other, h, label-Without sep s d)
]

Without-append : (sep : ℕ) (s t : Text) → Without sep s → Without sep t → Without sep (s ++ t)
Without-append sep [] t h k = k
Without-append sep (c ∷ s) t h k = ground (arith, h, Without-append sep s t)

label-chars : (name : Text) → is_valid_dns_label name ≡ true → every is_label_char name ≡ true
unfolding is_valid_dns_label
label-chars name h = elim (Bool-cases (is_empty name || ltb 63 (length name))) [
  | inl bad ↦ absurd (ground (arith, bad, h))
  | inr fine ↦ elim (Bool-cases (starts_with_hyphen name || ends_with_hyphen name)) [
    | inl bad ↦ absurd (ground (arith, fine, bad, h))
    | inr good ↦ (rw (fine, good) at h)
  ]
]

localhost_piece : split b'.' (bytes "localhost") ≡ (bytes "localhost", [])
unfolding split
localhost_piece = refl

-- The subdomain of the host of a process's proxy URL is the process's name, if that is a DNS label.
pub extract_subdomain-label :
    (name port : Text)
    → is_valid_dns_label name ≡ true
    → extract_subdomain (name ++ (bytes ".localhost" ++ b':' ∷ port)) ≡ some name
unfolding extract_subdomain
extract_subdomain-label name port h =
    let chars = label-chars name h in
    let host = name ++ bytes ".localhost" in
    let no_colon : Without b':' host =
      Without-append b':' name (bytes ".localhost") (label-Without b':' name refl chars) refl in
    let hostname : (split b':' (name ++ (bytes ".localhost" ++ b':' ∷ port))).0 ≡ host =
      ap (λ s. (split b':' s).0) (sym (append_assoc name (bytes ".localhost") (b':' ∷ port)))
      ∙ ap (λ p. p.0) (split-piece b':' host port no_colon) in
    let parts : split b'.' host ≡ (name, bytes "localhost" ∷ []) =
      split-piece b'.' name (bytes "localhost") (label-Without b'.' name refl chars)
      ∙ ap (λ p. (name, p.0 ∷ p.1)) localhost_piece in
    ap (λ s. before_localhost (last_two (split b'.' s).0 (split b'.' s).1)) hostname
    ∙ ap (λ p. before_localhost (last_two p.0 p.1)) parts
    ∙ ap (λ b. if b then some name else none) (text_eq_refl (bytes "localhost"))

-- A request for the proxy URL of a process goes to the port that the proxy state has for it, if its
-- name is a DNS label.
pub route-label :
    (ports : Map ℕ) (name port : Text) (n : ℕ)
    → is_valid_dns_label name ≡ true
    → lookup name ports ≡ some n
    → route ports (name ++ (bytes ".localhost" ++ b':' ∷ port)) ≡ backend n
unfolding route
route-label ports name port n h e =
    ap (route_to ports) (extract_subdomain-label name port h) ∙ ap (route_port name) e
