-- ===== src/Tui/Disk/Fresh.antt =====
-- A cache that was just consulted is not stale.
use agent_procs.Prelude.{
  ℕ, ◌-◌, ◌≡◌, refl, ap, false, Option, none, some, ltb, arith, Bool-cases, inl, inr,
}
use agent_procs.Logs.Files.{Files}
use agent_procs.Tui.Buffer.{LineSource}
use agent_procs.Tui.Disk.Discover.{
  DiskLogReader, SegmentCache, segments, refreshed, discover_both, of_source,
}

-- The cache that an operation at this time uses, and the reader that holds it.
abbrev pub current : Files → ℕ → DiskLogReader → SegmentCache
current files now r = refreshed files now r r.cache

abbrev pub settled : Files → ℕ → DiskLogReader → DiskLogReader
settled files now r = record r { cache = some (current files now r) }

refreshed_twice :
    (files : Files) (now : ℕ) (r q : DiskLogReader) (c : Option SegmentCache)
    → refreshed files now q (some (refreshed files now r c)) ≡ refreshed files now r c
unfolding discover_both
refreshed_twice files now r q none =
    let new : ltb 500 (now - now) ≡ false = ground arith in rw new refl
refreshed_twice files now r q (some c) =
    let new : ltb 500 (now - now) ≡ false = ground arith in
    elim (Bool-cases (ltb 500 (now - c.refreshed_at))) [
      | inl stale ↦ rw (stale, new) refl
      | inr fresh ↦ rw (fresh, fresh) refl
    ]

-- Within one operation the segments stay those of its first look at them.
pub segments-settled :
    (files : Files) (now : ℕ) (source : LineSource) (r : DiskLogReader)
    → segments files now source (settled files now r)
      ≡ (of_source source (current files now r), settled files now r)
unfolding segments
segments-settled files now source r =
    ap (λ c. (of_source source c, record r { cache = some c }))
      (refreshed_twice files now r (settled files now r) r.cache)

pub current-settled :
    (files : Files) (now : ℕ) (r : DiskLogReader)
    → current files now (settled files now r) ≡ current files now r
current-settled files now r = refreshed_twice files now r (settled files now r) r.cache
