-- ===== src/Monitoring/Rules/Consistent.antt =====
-- The level, the clearance and the intention of what `observe` of
-- apps/worker/src/monitoring/alert-engine.js makes of a snapshot.
use hello_deploy.Prelude.{
  ℕ, ◌≤◌, ◌≡◌, refl, arith, ◌⊎◌, inl, inr, Bool, true, false, ◌&&◌, ◌||◌, not, ltb, ◌==◌,
  if◌then◌else◌, Option, none, some, List, [], ◌∷◌, ◌++◌, All, String,
}
use hello_deploy.Monitoring.Incidents.{Severity, critical, warning, Observation}
use hello_deploy.Monitoring.Probes.{AppHealth}
use hello_deploy.Monitoring.Policy.{
  Threshold, StoredThreshold, StoredPolicy, normalize_threshold, default_threshold,
  normalize_policy, Policy,
}
use hello_deploy.Monitoring.Rules.{
  Disk, App, Service, Queue, Snapshot, threshold, observed, lowered, is_loaded, is_pressed, is_set,
  cpu_rule, memory_rule, known_reading, reserve_observation, reserve_of, tenths, reserve_rule,
  disk_rules, container_rule, memory_percent, health_rule, app_rules, level_unless, source_rule,
  nginx_rule, service_rules, queue_rule, concat_all, observe,
}

-- A threshold that clears below where it warns.
abbrev pub IsOrdered : Threshold → Type 0
IsOrdered t = (t.clear_below ≤ t.warning_at) × (t.warning_at ≤ t.critical_at)

abbrev pub HasOrder : Policy → Type 0
HasOrder p = IsOrdered p.cpu × IsOrdered p.memory × IsOrdered p.disk × IsOrdered p.container_memory

-- The rules give an observation its texts; they do not matter here, and are empty in the lemmas.
-- A level is not clear, and what is unknown has no level and is not clear.
abbrev pub IsConsistent : Observation → Type 0
IsConsistent o =
    ((o.level ≡ none) ⊎ ((o.unknown ≡ false) × (o.clear ≡ false) × (o.intentional ≡ false)))
    × ((o.unknown ≡ false) ⊎ (o.clear ≡ false))
    × ((o.intentional ≡ false) ⊎ (o.clear ≡ true))

All-append :
    (xs ys : List Observation)
    → All IsConsistent xs
    → All IsConsistent ys
    → All IsConsistent (xs ++ ys)
All-append [] ys h k = k
All-append (x ∷ xs) ys (p, h) k = (p, All-append xs ys h k)

observed-IsConsistent :
    (t : Threshold) (v : Option ℕ) → IsOrdered t → IsConsistent (observed "" "" "" (threshold t v))
unfolding threshold
observed-IsConsistent t none h = ground arith
observed-IsConsistent t (some v) h = ground arith

lowered-IsConsistent :
    (keep : Bool) (t : Threshold) (v : Option ℕ)
    → IsOrdered t
    → IsConsistent (observed "" "" "" (lowered keep (threshold t v)))
unfolding threshold
lowered-IsConsistent keep t none h = ground arith
lowered-IsConsistent keep t (some v) h = ground arith

reserve-IsConsistent : (p : Policy) (n : ℕ) → IsConsistent (reserve_observation p n)
reserve-IsConsistent p n = ground arith

level_unless-IsConsistent :
    (ok : Bool) (v : Severity) → IsConsistent (known_reading "" "" "" (level_unless ok v) ok none 0)
level_unless-IsConsistent true v = (inl refl, inl refl, inl refl)
level_unless-IsConsistent false v = (inr (refl, refl, refl), inl refl, inl refl)

health_rule-IsConsistent : (app : App) (h : AppHealth) → IsConsistent (health_rule app h)
unfolding health_rule
health_rule-IsConsistent app h = ground arith

if-All :
    (b : Bool) (xs ys : List Observation)
    → All IsConsistent xs
    → All IsConsistent ys
    → All IsConsistent (if b then xs else ys)
if-All true xs ys h k = h
if-All false xs ys h k = k

module _ (p : Policy) (order : HasOrder p) where
  reserve_of-All : (a b : Option ℕ) → All IsConsistent (reserve_of p a b)
  reserve_of-All none b = tt
  reserve_of-All (some total) none = tt
  reserve_of-All (some total) (some available) =
      if-All (ltb 0 total) (reserve_observation p (tenths available total) ∷ []) []
        (reserve-IsConsistent p (tenths available total), tt) tt

  disk_rules-All : (ds : List Disk) → All IsConsistent (disk_rules ds p)
  unfolding disk_rules
  disk_rules-All [] = tt
  disk_rules-All (d ∷ ds) =
      let (_, _, disk, _) = order in
      (observed-IsConsistent p.disk d.used_percent disk, disk_rules-All ds)

  container_rule-All : (app : App) → All IsConsistent (container_rule app p)
  unfolding container_rule
  container_rule-All app =
      let (_, _, _, memory) = order in
      if-All (is_set app.memory_limit_bytes && app.has_running_container) _ []
        (
          observed-IsConsistent p.container_memory
              (memory_percent app.memory_bytes app.memory_limit_bytes) memory,
          tt,
        )
        tt

  app_rules-All : (apps : List App) → All IsConsistent (app_rules apps p)
  unfolding app_rules
  app_rules-All [] = tt
  app_rules-All (app ∷ apps) =
      All-append (container_rule app p) (health_rule app app.health ∷ app_rules apps p)
        (container_rule-All app) (health_rule-IsConsistent app app.health, app_rules-All apps)

source_rule-All :
    (key title : String) (ok : Option Bool) (seconds : Option ℕ)
    → All IsConsistent (source_rule key title ok seconds)
unfolding source_rule
source_rule-All key title none seconds = tt
source_rule-All key title (some ok) seconds = (level_unless-IsConsistent ok warning, tt)

nginx_rule-All : (ok : Option Bool) → All IsConsistent (nginx_rule ok)
unfolding nginx_rule
nginx_rule-All none = tt
nginx_rule-All (some ok) = (level_unless-IsConsistent ok critical, tt)

service_rules-All :
    (services : List Service) (seconds : Option ℕ)
    → All IsConsistent (service_rules services seconds)
unfolding service_rules
service_rules-All [] seconds = tt
service_rules-All (s ∷ services) seconds =
    if-All (not s.is_installed || s.is_web) (service_rules services seconds) _
      (service_rules-All services seconds)
      (level_unless-IsConsistent s.is_up critical, service_rules-All services seconds)

queue_rule-All : (q : Option Queue) → All IsConsistent (queue_rule q)
unfolding queue_rule
queue_rule-All none = tt
queue_rule-All (some q) = (
  level_unless-IsConsistent (not (ltb 0 q.waiting && q.active == 0 && not q.is_paused)) warning,
  tt,
)

normalize_threshold-IsOrdered :
    (stored : StoredThreshold) (fallback : Threshold)
    → IsOrdered fallback
    → IsOrdered (normalize_threshold stored fallback)
unfolding normalize_threshold
normalize_threshold-IsOrdered stored fallback h = ground arith

normalize_policy-HasOrder : (stored : StoredPolicy) → HasOrder (normalize_policy stored)
unfolding normalize_policy
normalize_policy-HasOrder stored = (
  normalize_threshold-IsOrdered stored.stored_cpu (default_threshold 80 95 70 300)
      (omega arith, omega arith),
  normalize_threshold-IsOrdered stored.stored_memory (default_threshold 80 90 75 300)
      (omega arith, omega arith),
  normalize_threshold-IsOrdered stored.stored_disk (default_threshold 80 90 75 60)
      (omega arith, omega arith),
  normalize_threshold-IsOrdered stored.stored_container_memory (default_threshold 80 95 70 300)
      (omega arith, omega arith),
)

All-concat_all :
    (parts : List (List Observation))
    → All (All IsConsistent) parts
    → All IsConsistent (concat_all parts)
unfolding concat_all
All-concat_all [] h = tt
All-concat_all (os ∷ rest) (h, k) = All-append os (concat_all rest) h (All-concat_all rest k)

observe-ordered : (s : Snapshot) (p : Policy) → HasOrder p → All IsConsistent (observe s p)
unfolding observe cpu_rule memory_rule reserve_rule
observe-ordered s p order =
    let (cpu, memory, _, _) = order in
    All-concat_all _ (
      (lowered-IsConsistent (is_loaded s.load1 s.cores) p.cpu s.cpu cpu, tt),
      (
        (
          lowered-IsConsistent (is_pressed s.memory_pressure p.memory_pressure_critical) p.memory
              s.memory memory,
          tt,
        ),
        (
          reserve_of-All p order s.memory_total s.memory_available,
          (
            disk_rules-All p order s.disks,
            (
              app_rules-All p order s.apps,
              (
                source_rule-All "host" "Host metrics cannot be read" s.host_ok s.resource_seconds,
                (
                  source_rule-All "docker" "Docker is not answering the monitor" s.docker_ok
                      s.resource_seconds,
                  (
                    nginx_rule-All s.nginx_ok,
                    (service_rules-All s.services s.service_seconds, (queue_rule-All s.queue, tt)),
                  ),
                ),
              ),
            ),
          ),
        ),
      ),
    )

-- Whatever policy is stored, no observation of a snapshot contradicts itself: where there is a level,
-- the reading is known, not clear and not intentional; an unknown reading is not clear; and an
-- intentional one is.
pub observe-IsConsistent :
    (s : Snapshot) (stored : StoredPolicy) → All IsConsistent (observe s (normalize_policy stored))
observe-IsConsistent s stored =
    observe-ordered s (normalize_policy stored) (normalize_policy-HasOrder stored)
