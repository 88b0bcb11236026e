-- ===== src/Monitor/Filters.antt =====
-- set_filter, and the part of run_monitor that hands the options to the tracer. `update` stands for
-- `bpf_map__update_elem` on the array `filters`: `none` is a result other than 0.
pub mod Proofs
mod Tests
use ebpf_system_monitor.Base.{ℕ, ◌+◌, ◌≡◌, ◌≢◌, Option, none, some, ◌==◌, if◌then◌else◌}
use ebpf_system_monitor.Monitor.CommandLine.{Config}

-- What the array holds, and how many warnings went to stderr.
pub record FilterMap : Type 0 where
  pub values : ℕ → Option ℕ
  pub warnings : ℕ

-- The documented behaviour of the update: the element is set, the others are kept.
pub record IsUpdate (update : (ℕ → Option ℕ) → ℕ → ℕ → Option (ℕ → Option ℕ)) : Type 0 where
  pub sets :
      (vs vs' : ℕ → Option ℕ) (idx val : ℕ) → update vs idx val ≡ some vs' → vs' idx ≡ some val
  pub keeps :
      (vs vs' : ℕ → Option ℕ) (idx val j : ℕ)
      → update vs idx val ≡ some vs'
      → j ≢ idx
      → vs' j ≡ vs j

abbrev pub updated : Option (ℕ → Option ℕ) → FilterMap → FilterMap
updated none m = record m { warnings = m.warnings + 1 }
updated (some vs) m = record m { values = vs }

module _ (update : (ℕ → Option ℕ) → ℕ → ℕ → Option (ℕ → Option ℕ)) where
  unfoldable pub set_filter : ℕ → ℕ → FilterMap → FilterMap
  set_filter idx val m = updated (update m.values idx val) m

  unfoldable pub set_filters : Config → FilterMap → FilterMap
  unfolding set_filter
  set_filters cfg m =
      let m' = if cfg.filter_pid == 0 then m else set_filter 0 cfg.filter_pid m in
      if cfg.filter_port == 0 then m' else set_filter 1 cfg.filter_port m'
