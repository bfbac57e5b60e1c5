-- ===== src/Monitoring/Alerts/Recovery.antt =====
-- When `step` of apps/worker/src/monitoring/alert-engine.js lets an incident go, by the readings so far.
use mathlib.Core.List.{Memᴰ}
use mathlib.Core.Path.{subst}
use hello_deploy.Prelude.{
  ℕ, ◌+◌, ◌*◌, ◌≤◌, min, ◌≡◌, refl, sym, ap, ◌∙◌, arith, true, false, Option, none, some, is_some,
  or_else, List, ◌∷◌, if◌then◌else◌, string_eq, String,
}
use hello_deploy.Prelude.Assoc.{lookup}
use hello_deploy.Monitoring.Incidents.{Severity, Observation, update_open}
use hello_deploy.Monitoring.Alerts.{
  Entry, Engine, Timer, no_timer, update_timer, effective_level, elapsed, refresh_doc, step,
}
use hello_deploy.Monitoring.Alerts.Timers.{
  Readings, timer_after, InOrder, Held, is_clear, clear_since_lem,
}
use hello_deploy.Monitoring.Alerts.Steps.{
  HasReason, by_intention, by_recovery, closed_elsewhere, step-HasReason,
}

-- Why the engine lets an incident go: the readings, the newest first, end with the step's own.
pub data LetsGo (o : Observation) (now : ℕ) (readings : Readings) (c : Entry) (e : Engine)
    : Option Severity → Type 0 where
  intended : o.intentional ≡ true → LetsGo o now readings c e none
  recovered_since :
      (s : ℕ) (first : Observation)
      → s + min 60000 (o.sustain_seconds * 1000) ≤ now
      → Memᴰ (s, some first) readings
      → is_clear first ≡ true
      → first.unknown ≡ false
      → Held is_clear s readings
      → LetsGo o now readings c e none
  no_longer_open :
      (l : Severity)
      → (update_open c.doc.id (refresh_doc o l now c.doc) e.docs).0 ≡ none
      → LetsGo o now readings c e (some l)

elapsed_inv :
    (since : Option ℕ) (now ms : ℕ)
    → elapsed since now ms ≡ true
    → (s : ℕ) × (since ≡ some s) × (s + ms ≤ now)
elapsed_inv none now ms h = cc
elapsed_inv (some s) now ms h = (s, refl, ground (arith, h))

by_readings :
    (o : Observation) (now : ℕ) (readings : Readings) (t : Timer) (c : Entry) (e : Engine)
    (l : Option Severity)
    → InOrder readings
    → t ≡ timer_after readings
    → HasReason o now t c e l
    → LetsGo o now readings c e l
by_readings o now readings t c e l i same (by_intention h) = intended h
by_readings o now readings t c e l i same (by_recovery h) =
    let (s, q, le) = elapsed_inv t.clear_since now (min 60000 (o.sustain_seconds * 1000)) h in
    let ((x, m, clear, known), held) =
      clear_since_lem readings s i (ap (λ (t : Timer). t.clear_since) (sym same) ∙ q) in
    recovered_since s x le m clear known held
by_readings o now readings t c e l i same (closed_elsewhere k h) = no_longer_open k h

known_timer :
    (o : Observation) (now : ℕ) (t : Timer) (readings : Readings)
    → o.unknown ≡ false
    → t ≡ timer_after readings
    → update_timer o now t ≡ timer_after ((now, some o) ∷ readings)
unfolding timer_after
known_timer o now t readings known same = simp (known, if◌then◌else◌) (ap (update_timer o now) same)

-- The engine's timer of a rule.
abbrev pub timer_of : String → Engine → Timer
timer_of fingerprint e = or_else (lookup fingerprint e.timers) no_timer

-- For an engine whose timer of the rule is that of the readings so far: if a step leaves no open
-- incident where the engine held one, then its reading was known, and either no level was in effect,
-- and the condition was intentional or had been clear for the recovery time, by a known clear reading
-- at least that long ago and every known one since, with the timer not deleted since, or a level was
-- in effect, and the document was no longer open in the collection.
pub step-LetsGo :
    (o : Observation) (now revision : ℕ) (older : Readings) (c : Entry) (e : Engine)
    → InOrder ((now, some o) ∷ older)
    → timer_of o.fingerprint e ≡ timer_after older
    → lookup o.fingerprint e.open_incidents ≡ some c
    → is_some (lookup o.fingerprint (step o now revision e).open_incidents) ≡ false
    → (o.unknown ≡ false)
      × LetsGo o now
          ((now, some o) ∷ older)
          c
          e
          (effective_level (timer_after ((now, some o) ∷ older)) now (o.sustain_seconds * 1000))
step-LetsGo o now revision older c e i same held gone =
    let (known, reason) = step-HasReason o now revision c e held gone in
    let t = update_timer o now (timer_of o.fingerprint e) in
    let q : t ≡ timer_after ((now, some o) ∷ older) =
      known_timer o now (timer_of o.fingerprint e) older known same in
    (
      known,
      subst
          (λ u.
            LetsGo o now ((now, some o) ∷ older) c e
              (effective_level u now (o.sustain_seconds * 1000)))
          q (by_readings o now ((now, some o) ∷ older) t c e _ i q reason),
    )
