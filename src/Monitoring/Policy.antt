-- ===== src/Monitoring/Policy.antt =====
-- `normalizeMonitoringPolicy` of packages/contracts/src/monitoring.js, for what the alert rules read.
use hello_deploy.Prelude.{ℕ, ◌&&◌, ◌||◌, ltb, if◌then◌else◌, Option, none, some}

-- `policy.thresholds[rule]`
pub record Threshold : Type 0 where
  pub warning_at : ℕ
  pub critical_at : ℕ
  pub clear_below : ℕ
  pub sustain_seconds : ℕ

pub record Policy : Type 0 where
  pub cpu : Threshold
  pub memory : Threshold
  pub disk : Threshold
  pub container_memory : Threshold
  pub memory_pressure_critical : ℕ
  pub memory_reserve_percent : ℕ

-- A number that a stored policy holds: `none` where `Number` does not give an integer from 0 on.
-- Those below 0 are refused as well, because no limit begins below it.
abbrev pub clamp_int : Option ℕ → ℕ → ℕ → ℕ → ℕ
clamp_int none low high fallback = fallback
clamp_int (some n) low high fallback = if ltb n low || ltb high n then fallback else n

pub record StoredThreshold : Type 0 where
  pub stored_warning : Option ℕ
  pub stored_critical : Option ℕ
  pub stored_clear : Option ℕ
  pub stored_sustain_seconds : Option ℕ

-- One round of the loop over the rules in `normalizeMonitoringPolicy`.
unfoldable pub normalize_threshold : StoredThreshold → Threshold → Threshold
normalize_threshold stored fallback =
    let candidate : Threshold = record {
      warning_at = clamp_int stored.stored_warning 1 100 fallback.warning_at;
      critical_at = clamp_int stored.stored_critical 1 100 fallback.critical_at;
      clear_below = clamp_int stored.stored_clear 1 100 fallback.clear_below;
      sustain_seconds = clamp_int stored.stored_sustain_seconds 0 3600 fallback.sustain_seconds;
    } in
    if ltb candidate.clear_below candidate.warning_at
      && ltb candidate.warning_at candidate.critical_at
    then candidate
    else fallback

abbrev pub default_threshold : ℕ → ℕ → ℕ → ℕ → Threshold
default_threshold warning_at critical_at clear_below sustain_seconds = record {
  warning_at = warning_at;
  critical_at = critical_at;
  clear_below = clear_below;
  sustain_seconds = sustain_seconds;
}

pub record StoredPolicy : Type 0 where
  pub stored_cpu : StoredThreshold
  pub stored_memory : StoredThreshold
  pub stored_disk : StoredThreshold
  pub stored_container_memory : StoredThreshold
  pub stored_pressure : Option ℕ
  pub stored_reserve : Option ℕ

-- The part of `normalizeMonitoringPolicy` that the rules read.
unfoldable pub normalize_policy : StoredPolicy → Policy
normalize_policy stored = record {
  cpu = normalize_threshold stored.stored_cpu (default_threshold 80 95 70 300);
  memory = normalize_threshold stored.stored_memory (default_threshold 80 90 75 300);
  disk = normalize_threshold stored.stored_disk (default_threshold 80 90 75 60);
  container_memory =
      normalize_threshold stored.stored_container_memory (default_threshold 80 95 70 300);
  memory_pressure_critical = clamp_int stored.stored_pressure 0 100 10;
  memory_reserve_percent = clamp_int stored.stored_reserve 0 50 15;
}
