-- ===== src/Monitoring/Alerts/Sustained.antt =====
-- A held condition takes effect, by the sustain timers of apps/worker/src/monitoring/alert-engine.js.
use mathlib.Core.List.{Memᴰ}
use hello_deploy.Prelude.{
  ap, All-at, ◌<◌, ℕ, ◌+◌, ◌≤◌, ◌≡◌, refl, sym, arith, ◌⊎◌, inl, inr, true, false, Option-cases,
  Option, none, some, is_some, [], ◌∷◌, All, or_else,
}
use hello_deploy.Monitoring.Incidents.{Severity, critical, warning, Observation}
use hello_deploy.Monitoring.Alerts.{Timer, effective_level}
use hello_deploy.Monitoring.Alerts.Timers.{
  Readings, timer_after, NotAfter, InOrder, reaches, Fits, field_sound, field, field-update_timer,
  field-none, field-timer_after,
}

-- Every known reading from the time `s` on has been at least that bad, and the timer was not deleted.
abbrev pub HeldFrom : Severity → ℕ → Readings → Type 0
HeldFrom v s = All (λ r. (r.0 < s) ⊎ Fits (reaches v) r.1)

module _ (v : Severity) (s : ℕ) where
  -- The timer of the field runs since `s` or longer.
  abbrev Runs : Timer → Type 0
  Runs t = (w : ℕ) × (field v t ≡ some w) × (w ≤ s)

  field-le :
      (older : Readings) (w : ℕ)
      → InOrder older
      → NotAfter s older
      → field v (timer_after older) ≡ some w
      → w ≤ s
  field-le older w i n h =
      let ((o, m, _, _), _) =
        field_sound (reaches v) (field v) (field-update_timer v) (field-none v) older w i h in
      All-at (λ r. r.0 ≤ s) older n m

  Runs-here :
      (at : ℕ) (o : Observation) (older : Readings)
      → InOrder older
      → NotAfter s older
      → at ≡ s
      → o.unknown ≡ false
      → reaches v o ≡ true
      → Runs (timer_after ((at, some o) ∷ older))
  Runs-here at o older i n e known bad = elim (Option-cases (field v (timer_after older))) [
    | inl first ↦ (
      at,
      ground (
        arith,
        field-timer_after (reaches v) (field v) (field-update_timer v) (field-none v) at o older,
      ),
      omega arith,
    )
    | inr (w, f) ↦ (
      w,
      ground (
        arith,
        field-timer_after (reaches v) (field v) (field-update_timer v) (field-none v) at o older,
      ),
      field-le older w i n f,
    )
  ]

  Runs-cons :
      (at : ℕ) (o : Observation) (older : Readings)
      → (o.unknown ≡ true) ⊎ (reaches v o ≡ true)
      → Runs (timer_after older)
      → Runs (timer_after ((at, some o) ∷ older))
  Runs-cons at o older b (w, f, le) = (
    w,
    ground (
      arith,
      field-timer_after (reaches v) (field v) (field-update_timer v) (field-none v) at o older,
    ),
    le,
  )

  field_complete :
      (readings : Readings) (o : Observation)
      → InOrder readings
      → Memᴰ (s, some o) readings
      → o.unknown ≡ false
      → reaches v o ≡ true
      → HeldFrom v s readings
      → Runs (timer_after readings)
  field_complete [] o i m known bad h = elim m [ ]
  field_complete ((at, none) ∷ older) o (n, i) (Memᴰ.head e) known bad h =
      let x : some o ≡ none = ap (λ (r : ℕ × Option Observation). r.1) e in cc
  field_complete ((at, some x) ∷ older) o (n, i) (Memᴰ.head e) known bad h =
      let same : s ≡ at = ap (λ (r : ℕ × Option Observation). r.0) e in
      let this : o ≡ x = ap (λ (r : ℕ × Option Observation). or_else r.1 o) e in
      Runs-here at x older i (rw same n) (sym same) (rw (← this) known) (rw (← this) bad)
  field_complete ((at, x) ∷ older) o (n, i) (Memᴰ.tail m) known bad (inl before, h) =
      absurd (omega (arith, before, All-at (λ r. r.0 ≤ at) older n m))
  field_complete ((at, none) ∷ older) o (n, i) (Memᴰ.tail m) known bad (inr later, h) = absurd later
  field_complete ((at, some x) ∷ older) o (n, i) (Memᴰ.tail m) known bad (inr later, h) =
      Runs-cons at x older later (field_complete older o i m known bad h)

-- A condition that has been held for the sustain time takes effect: if some known reading at least
-- the sustain time ago, and every known one from then on, was at least that bad, and the timer was
-- not deleted from then on, then the effective level is not none, and it is critical if they were
-- critical.
pub effective_level_complete :
    (v : Severity) (readings : Readings) (now sustain_ms s : ℕ) (o : Observation)
    → InOrder readings
    → Memᴰ (s, some o) readings
    → o.unknown ≡ false
    → reaches v o ≡ true
    → HeldFrom v s readings
    → s + sustain_ms ≤ now
    → ((v ≡ critical) × (effective_level (timer_after readings) now sustain_ms ≡ some critical))
      ⊎ ((v ≡ warning) × (is_some (effective_level (timer_after readings) now sustain_ms) ≡ true))
unfolding effective_level
effective_level_complete critical readings now sustain_ms s o i m known bad h le =
    let (w, f, r) = field_complete critical s readings o i m known bad h in inl (refl, ground arith)
effective_level_complete warning readings now sustain_ms s o i m known bad h le =
    let (w, f, r) = field_complete warning s readings o i m known bad h in inr (refl, ground arith)
