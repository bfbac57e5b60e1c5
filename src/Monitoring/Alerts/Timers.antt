-- ===== src/Monitoring/Alerts/Timers.antt =====
-- The sustain timers of apps/worker/src/monitoring/alert-engine.js, against the readings of one rule.
use mathlib.Core.List.{Memᴰ}
use hello_deploy.Prelude.{
  ◌∙◌, ℕ, ◌+◌, ◌≤◌, ◌≡◌, refl, sym, arith, ◌⊎◌, inl, inr, Bool, true, false, if◌then◌else◌,
  Bool-cases, Option-cases, Option, none, some, is_some, List, [], ◌∷◌, All,
}
use hello_deploy.Monitoring.Incidents.{Severity, critical, warning, Observation, level_is_critical}
use hello_deploy.Monitoring.Alerts.{Timer, no_timer, since, update_timer, effective_level}

-- What happens to the timer of one rule, with the times, the newest first: a reading, or (`none`) the
-- timer's deletion by `resolveIncident` or a restart.
abbrev pub Readings : Type 0
Readings = List (ℕ × Option Observation)

-- A reading that is unknown leaves the timer as it is.
abbrev pub after_reading : Option Observation → ℕ → Timer → Timer
after_reading none at t = no_timer
after_reading (some o) at t = if o.unknown then t else update_timer o at t

-- The timer that the engine has kept by then.
unfoldable pub timer_after : Readings → Timer
timer_after [] = no_timer
timer_after ((at, o) ∷ older) = let t = timer_after older in after_reading o at t

-- No reading is newer than `at`, and the times never go back.
abbrev pub NotAfter : ℕ → Readings → Type 0
NotAfter at = All (λ r. r.0 ≤ at)

abbrev pub InOrder : Readings → Type 0
InOrder [] = Unit
InOrder ((at, o) ∷ older) = NotAfter at older × InOrder older

-- A reading is at least as bad as a severity.
abbrev pub reaches : Severity → Observation → Bool
reaches critical o = level_is_critical o.level
reaches warning o = is_some o.level

abbrev pub is_clear : Observation → Bool
is_clear o = o.clear

-- The timer was not deleted here, and the reading, if it is known, meets the condition.
abbrev pub Fits : (Observation → Bool) → Option Observation → Type 0
Fits p none = ⊥
Fits p (some o) = (o.unknown ≡ true) ⊎ (p o ≡ true)

-- Since the time `s`, every known reading has met the condition, and the timer was not deleted.
abbrev pub Held : (Observation → Bool) → ℕ → Readings → Type 0
Held p s = All (λ r. (r.0 ≤ s) ⊎ Fits p r.1)

-- A field of the timer that runs while a condition is met.
module _ (p : Observation → Bool) (f : Timer → Option ℕ)
    (law : (o : Observation) (at : ℕ) (t : Timer) → f (update_timer o at t) ≡ since (p o) at (f t))
    (empty : f no_timer ≡ none) where
  Held-of_NotAfter : (s : ℕ) (older : Readings) → NotAfter s older → Held p s older
  Held-of_NotAfter s [] h = tt
  Held-of_NotAfter s (r ∷ older) (q, h) = (inl q, Held-of_NotAfter s older h)

  abbrev pub Start : ℕ → Readings → Type 0
  Start s readings =
      ((o : Observation) × Memᴰ (s, some o) readings × (p o ≡ true) × (o.unknown ≡ false))
      × Held p s readings

  Start-cons :
      (s at : ℕ) (o : Observation) (older : Readings)
      → (o.unknown ≡ true) ⊎ (p o ≡ true)
      → Start s older
      → Start s ((at, some o) ∷ older)
  Start-cons s at o older b ((q, m, r, u), h) = ((q, Memᴰ.tail m, r, u), (inr b, h))

  pub field-timer_after :
      (at : ℕ) (o : Observation) (older : Readings)
      → f (timer_after ((at, some o) ∷ older))
        ≡ (if o.unknown then f (timer_after older) else since (p o) at (f (timer_after older)))
  unfolding timer_after
  field-timer_after at o older = ground (arith, law o at (timer_after older))

  Start-known :
      (s at : ℕ) (o : Observation) (older : Readings)
      → NotAfter at older
      → o.unknown ≡ false
      → since (p o) at (f (timer_after older)) ≡ some s
      → ((s' : ℕ) → f (timer_after older) ≡ some s' → Start s' older)
      → Start s ((at, some o) ∷ older)
  Start-known s at o older n known h ih = elim (Bool-cases (p o)) [
    | inr mild ↦ let x : none ≡ some s = rw mild at h in cc
    | inl bad ↦ elim (Option-cases (f (timer_after older))) [
      | inl first ↦
          let e : at ≡ s = ground arith in
          let n' : NotAfter s older = rw (← e) n in
          ((o, Memᴰ.head (rw e refl), bad, known), (inr (inr bad), Held-of_NotAfter s older n'))
      | inr (s', e) ↦
          let e' : f (timer_after older) ≡ some s = ground arith in
          Start-cons s at o older (inr bad) (ih s e')
    ]
  ]

  pub field_sound :
      (readings : Readings) (s : ℕ)
      → InOrder readings
      → f (timer_after readings) ≡ some s
      → Start s readings
  field_sound [] s i h =
      let x : f no_timer ≡ some s = unfold timer_after in h in
      let y : none ≡ some s = sym empty ∙ x in cc
  field_sound ((at, none) ∷ older) s i h =
      let x : f no_timer ≡ some s = unfold timer_after in h in
      let y : none ≡ some s = sym empty ∙ x in cc
  field_sound ((at, some o) ∷ older) s (n, i) h =
      known (Bool-cases o.unknown) (sym (field-timer_after at o older) ∙ h)
        (λ s' e. field_sound older s' i e)
    where
      known :
          (o.unknown ≡ true) ⊎ (o.unknown ≡ false)
          → (if o.unknown then f (timer_after older) else since (p o) at (f (timer_after older)))
            ≡ some s
          → ((s' : ℕ) → f (timer_after older) ≡ some s' → Start s' older)
          → Start s ((at, some o) ∷ older)
      known (inl u) e ih = Start-cons s at o older (inl u) (ih s (ground arith))
      known (inr k) e ih = Start-known s at o older n k (ground arith) ih

abbrev pub field : Severity → Timer → Option ℕ
field critical t = t.critical_since
field warning t = t.warning_since

pub field-update_timer :
    (v : Severity) (o : Observation) (at : ℕ) (t : Timer)
    → field v (update_timer o at t) ≡ since (reaches v o) at (field v t)
unfolding update_timer
field-update_timer v o at t = ground arith

pub field-none : (v : Severity) → field v no_timer ≡ none
field-none v = ground arith

clear-update_timer :
    (o : Observation) (at : ℕ) (t : Timer)
    → (update_timer o at t).clear_since ≡ since (is_clear o) at t.clear_since
unfolding update_timer
clear-update_timer o at t = refl

-- The clear timer runs from a known clear reading on, with every known reading since clear.
pub clear_since_lem :
    (readings : Readings) (s : ℕ)
    → InOrder readings
    → (timer_after readings).clear_since ≡ some s
    → ((o : Observation) × Memᴰ (s, some o) readings × (is_clear o ≡ true) × (o.unknown ≡ false))
      × Held is_clear s readings
clear_since_lem readings s i h =
    field_sound is_clear (λ t. t.clear_since) clear-update_timer refl readings s i h

-- When a level takes effect, it has been held: there was a known reading at least that bad at least
-- the sustain time ago, every known reading since was at least that bad, and the timer was not
-- deleted since.
pub effective_level_sound :
    (v : Severity) (readings : Readings) (now sustain_ms : ℕ)
    → InOrder readings
    → effective_level (timer_after readings) now sustain_ms ≡ some v
    → (s : ℕ) × (s + sustain_ms ≤ now)
      × ((o : Observation) × Memᴰ (s, some o) readings × (reaches v o ≡ true) × (o.unknown ≡ false))
      × Held (reaches v) s readings
unfolding effective_level
effective_level_sound v readings now sustain_ms i h =
    let (s, e, le) = since_when v (timer_after readings) h in
    let (p, held) =
      field_sound (reaches v) (field v) (field-update_timer v) (field-none v) readings s i e in
    (s, le, p, held)
  where
    since_when :
        (w : Severity) (t : Timer)
        → effective_level t now sustain_ms ≡ some w
        → (s : ℕ) × (field w t ≡ some s) × (s + sustain_ms ≤ now)
    since_when critical t x = ground arith
    since_when warning t x = ground arith
