-- ===== src/Monitoring/Alerts/Steps.antt =====
-- What one call of `step` and `refreshIncident` of apps/worker/src/monitoring/alert-engine.js may do.
use hello_deploy.Prelude.{
  ℕ, ◌+◌, ◌*◌, min, ◌≡◌, ◌≢◌, refl, arith, ◌⊎◌, inl, inr, Bool, true, false, ◌&&◌, Bool-cases, ◌==◌,
  ltb, if◌then◌else◌, Option, none, some, is_some, or_else, List, [], ◌∷◌, string_eq, beq_refl, ◌∙◌,
  ap, sym,
}
use hello_deploy.Prelude.Assoc.{lookup, insert, lookup-insert}
use hello_deploy.Monitoring.Incidents.{
  Severity, critical, warning, active, acknowledged, severity_eq, Incident, Observation, is_open,
  update_open, cleared, recovered,
}
use hello_deploy.Monitoring.Alerts.{
  last_seen_write_ms, Entry, Engine, Timer, no_timer, update_timer, effective_level, elapsed,
  refresh_doc, refreshed, refresh_incident, resolve_incident, dispatch, step,
}

refreshed-holds :
    (o : Observation) (at : ℕ) (same : Bool) (e : Engine) (w : Option Incident × List Incident)
    → is_some (lookup o.fingerprint (refreshed o at same e w).open_incidents) ≡ false
    → w.0 ≡ none
unfolding refreshed
refreshed-holds o at same e (none, ds) h = refl
refreshed-holds o at same e (some d, ds) h = ground (
  arith,
  lookup-insert o.fingerprint o.fingerprint (record { doc = d; last_write_at = at })
      e.open_incidents,
  beq_refl o.fingerprint,
)

-- Why the engine lets an incident go in a step.
pub data HasReason (o : Observation) (now : ℕ) (t : Timer) (c : Entry) (e : Engine)
    : Option Severity → Type 0 where
  by_intention : o.intentional ≡ true → HasReason o now t c e none
  by_recovery :
      elapsed t.clear_since now (min 60000 (o.sustain_seconds * 1000)) ≡ true
      → HasReason o now t c e none
  closed_elsewhere :
      (l : Severity)
      → (update_open c.doc.id (refresh_doc o l now c.doc) e.docs).0 ≡ none
      → HasReason o now t c e (some l)

refresh_incident-HasReason :
    (o : Observation) (now : ℕ) (t : Timer) (l : Severity) (c : Entry) (e : Engine)
    → lookup o.fingerprint e.open_incidents ≡ some c
    → is_some (lookup o.fingerprint (refresh_incident o l now c e).open_incidents) ≡ false
    → HasReason o now t c e (some l)
unfolding refresh_incident
refresh_incident-HasReason o now t l c e h g =
    by_cases (severity_eq c.doc.severity l)
      (severity_eq c.doc.severity l && ltb now (c.last_write_at + last_seen_write_ms)) g
  where
    by_cases :
        (same b : Bool)
        → is_some (
            lookup o.fingerprint
              (if b
                then e
                else refreshed o now same e
                    (update_open c.doc.id (refresh_doc o l now c.doc) e.docs)).open_incidents)
          ≡ false
        → HasReason o now t c e (some l)
    by_cases same true x = absurd (ground (arith, h, x))
    by_cases same false x =
        closed_elsewhere l
          (refreshed-holds o now same e (update_open c.doc.id (refresh_doc o l now c.doc) e.docs) x)

dispatch-HasReason :
    (o : Observation) (now revision : ℕ) (t : Timer) (l : Option Severity) (c : Entry) (e : Engine)
    → lookup o.fingerprint e.open_incidents ≡ some c
    → is_some (lookup o.fingerprint (dispatch o now revision t l (some c) e).open_incidents) ≡ false
    → HasReason o now t c e l
unfolding dispatch
dispatch-HasReason o now revision t (some l) c e h g = refresh_incident-HasReason o now t l c e h g
dispatch-HasReason o now revision t none c e h g =
    by_cases o.intentional (elapsed t.clear_since now (min 60000 (o.sustain_seconds * 1000))) refl
      refl g
  where
    by_cases :
        (i r : Bool)
        → o.intentional ≡ i
        → elapsed t.clear_since now (min 60000 (o.sustain_seconds * 1000)) ≡ r
        → is_some (
            lookup o.fingerprint
              (if i
                then resolve_incident o.fingerprint cleared now c e
                else if r
                then resolve_incident o.fingerprint recovered now c e
                else e).open_incidents)
          ≡ false
        → HasReason o now t c e none
    by_cases true r p q x = by_intention p
    by_cases false true p q x = by_recovery q
    by_cases false false p q x = absurd (ground (arith, h, x))

pub step-HasReason :
    (o : Observation) (now revision : ℕ) (c : Entry) (e : Engine)
    → lookup o.fingerprint e.open_incidents ≡ some c
    → is_some (lookup o.fingerprint (step o now revision e).open_incidents) ≡ false
    → let t = update_timer o now (or_else (lookup o.fingerprint e.timers) no_timer) in
      (o.unknown ≡ false) × HasReason o now t c e (effective_level t now (o.sustain_seconds * 1000))
unfolding step
step-HasReason o now revision c e h g =
    let t = update_timer o now (or_else (lookup o.fingerprint e.timers) no_timer) in
    by_cases t (effective_level t now (o.sustain_seconds * 1000)) o.unknown refl g
  where
    by_cases :
        (t : Timer) (level : Option Severity) (u : Bool)
        → o.unknown ≡ u
        → is_some (
            lookup o.fingerprint
              (if u
                then e
                else dispatch o now revision t level
                    (lookup o.fingerprint e.open_incidents)
                    (record e { timers = insert o.fingerprint t e.timers })).open_incidents)
          ≡ false
        → (o.unknown ≡ false) × HasReason o now t c e level
    by_cases t level true p x = absurd (ground (arith, h, x))
    by_cases t level false p x =
        let e' = record e { timers = insert o.fingerprint t e.timers } in
        let k =
          ap
            (λ q.
              is_some (lookup o.fingerprint (dispatch o now revision t level q e').open_incidents))
            h in
        (p, same_docs t level (dispatch-HasReason o now revision t level c e' h (sym k ∙ x)))
      where
        same_docs :
            (t : Timer) (level : Option Severity)
            → HasReason o now t c (record e { timers = insert o.fingerprint t e.timers }) level
            → HasReason o now t c e level
        same_docs t l (by_intention p) = by_intention p
        same_docs t l (by_recovery p) = by_recovery p
        same_docs t l (closed_elsewhere v p) = closed_elsewhere v p

-- The document with an id.
unfoldable pub find_id : ℕ → List Incident → Option Incident
find_id id [] = none
find_id id (d ∷ ds) = if d.id == id then some d else find_id id ds

find_id-update_open :
    (id : ℕ) (f : Incident → Incident) (ds : List Incident) (d : Incident)
    → ((x : Incident) → (f x).id ≡ x.id)
    → find_id id ds ≡ some d
    → is_open d.state ≡ true
    → ((update_open id f ds).0 ≡ some (f d)) × (find_id id (update_open id f ds).1 ≡ some (f d))
unfolding find_id update_open
find_id-update_open id f [] d k h s = absurd (ground arith)
find_id-update_open id f (x ∷ ds) d k h s = elim (Bool-cases (x.id == id)) [
  | inl e ↦
      let found : some x ≡ some d = rw e at h in
      let same : x ≡ d = ap (λ o. or_else o d) found in
      let here : is_open x.state ≡ true = ap (λ y. is_open y.state) same ∙ s in
      simp (e, here, k x) (ap (λ y. some (f y)) same, ap (λ y. some (f y)) same)
  | inr e ↦
      let later : find_id id ds ≡ some d = rw e at h in
      let rest = find_id-update_open id f ds d k later s in simp e rest
]

refreshed-docs :
    (o : Observation) (at : ℕ) (same : Bool) (e : Engine) (w : Option Incident × List Incident)
    (d : Incident)
    → w.0 ≡ some d
    → (refreshed o at same e w).docs ≡ w.1
unfolding refreshed
refreshed-docs o at same e (none, ds) d h = absurd (ground (arith, h))
refreshed-docs o at same e (some x, ds) d h = refl

refresh_doc-id :
    (o : Observation) (l : Severity) (at : ℕ) (m d : Incident) → (refresh_doc o l at m d).id ≡ d.id
refresh_doc-id o l at m d = ground arith

refresh_doc-critical :
    (o : Observation) (at : ℕ) (m d : Incident)
    → m.severity ≡ warning
    → ((refresh_doc o critical at m d).severity ≡ critical)
      × (((m.state ≡ acknowledged) × ((refresh_doc o critical at m d).state ≡ active))
          ⊎ ((m.state ≢ acknowledged) × ((refresh_doc o critical at m d).state ≡ d.state)))
refresh_doc-critical o at m d w = ground arith

-- When an open incident turns critical, it becomes active if the engine remembers it as
-- acknowledged, and else keeps its state, whatever was written to the collection since: with
-- `active` remembered and `acknowledged` written, it is critical and stays acknowledged.
pub turns_critical :
    (o : Observation) (at : ℕ) (c : Entry) (e : Engine) (d : Incident)
    → c.doc.severity ≡ warning
    → find_id c.doc.id e.docs ≡ some d
    → is_open d.state ≡ true
    → (d' : Incident) × (find_id c.doc.id (refresh_incident o critical at c e).docs ≡ some d')
      × (d'.severity ≡ critical)
      × (((c.doc.state ≡ acknowledged) × (d'.state ≡ active))
          ⊎ ((c.doc.state ≢ acknowledged) × (d'.state ≡ d.state)))
unfolding refresh_incident
turns_critical o at c e d w h s =
    let f = refresh_doc o critical at c.doc in
    let changed = ap (λ v. severity_eq v critical) w in
    let (p, q) = find_id-update_open c.doc.id f e.docs d (refresh_doc-id o critical at c.doc) h s in
    let written = update_open c.doc.id f e.docs in
    let docs =
      ap
        (λ b.
          (if b && ltb at (c.last_write_at + last_seen_write_ms)
            then e
            else refreshed o at b e written).docs)
        changed
      ∙ refreshed-docs o at false e written (f d) p in
    (
      f d,
      ap (find_id c.doc.id) docs ∙ q,
      (refresh_doc-critical o at c.doc d w).0,
      (refresh_doc-critical o at c.doc d w).1,
    )
